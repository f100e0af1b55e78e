-- ===== src/Bundles/Yubico.antt =====
-- src/bundles/yubico.rs
use ansible_playbooks.Common.{String, ◌<>◌, some, [], ◌∷◌, ◌++◌}
use ansible_playbooks.Resource.Ids.{ResourceId}
use ansible_playbooks.Backends.Registry.{Resource}
use ansible_playbooks.Backends.Defaults.{
  default_apt_package, default_command, default_file, default_marker,
}
use ansible_playbooks.Bundles.{Setting, Build, ◌>>=◌, add, each, memoized}
use ansible_playbooks.Bundles.Apt.{apt}

unfoldable pub u2f_rules : String
u2f_rules =
    "# Copyright (c) 2020 Yubico AB. All rights reserved.\n" <> "#\n"
    <> "# Redistribution and use in source and binary forms, with or without\n"
    <> "# modification, are permitted provided that the following conditions are\n" <> "# met:\n"
    <> "#\n" <> "#    1. Redistributions of source code must retain the above copyright\n"
    <> "#       notice, this list of conditions and the following disclaimer.\n"
    <> "#    2. Redistributions in binary form must reproduce the above copyright\n"
    <> "#       notice, this list of conditions and the following disclaimer in\n"
    <> "#       the documentation and/or other materials provided with the\n"
    <> "#       distribution.\n" <> "#\n"
    <> "# THIS SOFTWARE IS PROVIDED BY THE COPYRIGHT HOLDERS AND CONTRIBUTORS\n"
    <> "# \"AS IS\" AND ANY EXPRESS OR IMPLIED WARRANTIES, INCLUDING, BUT NOT\n"
    <> "# LIMITED TO, THE IMPLIED WARRANTIES OF MERCHANTABILITY AND FITNESS FOR\n"
    <> "# A PARTICULAR PURPOSE ARE DISCLAIMED. IN NO EVENT SHALL THE COPYRIGHT\n"
    <> "# HOLDER OR CONTRIBUTORS BE LIABLE FOR ANY DIRECT, INDIRECT, INCIDENTAL,\n"
    <> "# SPECIAL, EXEMPLARY, OR CONSEQUENTIAL DAMAGES (INCLUDING, BUT NOT\n"
    <> "# LIMITED TO, PROCUREMENT OF SUBSTITUTE GOODS OR SERVICES; LOSS OF USE,\n"
    <> "# DATA, OR PROFITS; OR BUSINESS INTERRUPTION) HOWEVER CAUSED AND ON ANY\n"
    <> "# THEORY OF LIABILITY, WHETHER IN CONTRACT, STRICT LIABILITY, OR TORT\n"
    <> "# (INCLUDING NEGLIGENCE OR OTHERWISE) ARISING IN ANY WAY OUT OF THE USE\n"
    <> "# OF THIS SOFTWARE, EVEN IF ADVISED OF THE POSSIBILITY OF SUCH DAMAGE.\n" <> "#\n"
    <> "# SPDX-License-Identifier: BSD-2-Clause\n" <> "\n"
    <> "# This file is automatically generated, and should be used with udev 188\n"
    <> "# or newer.\n" <> "\n" <> "ACTION!=\"add|change\", GOTO=\"fido_end\"\n" <> "\n"
    <> "# ellipticSecure MIRKey by STMicroelectronics\n"
    <> "KERNEL==\"hidraw*\", SUBSYSTEM==\"hidraw\", ATTRS{idVendor}==\"0483\", ATTRS{idProduct}==\"a2ac\", TAG+=\"uaccess\", GROUP=\"plugdev\", MODE=\"0660\"\n"
    <> "\n" <> "# Unknown product by STMicroelectronics\n"
    <> "KERNEL==\"hidraw*\", SUBSYSTEM==\"hidraw\", ATTRS{idVendor}==\"0483\", ATTRS{idProduct}==\"a2ca\", TAG+=\"uaccess\", GROUP=\"plugdev\", MODE=\"0660\"\n"
    <> "\n" <> "# Unknown product by STMicroelectronics\n"
    <> "KERNEL==\"hidraw*\", SUBSYSTEM==\"hidraw\", ATTRS{idVendor}==\"0483\", ATTRS{idProduct}==\"cdab\", TAG+=\"uaccess\", GROUP=\"plugdev\", MODE=\"0660\"\n"
    <> "\n" <> "# Infineon FIDO by Infineon Technologies\n"
    <> "KERNEL==\"hidraw*\", SUBSYSTEM==\"hidraw\", ATTRS{idVendor}==\"058b\", ATTRS{idProduct}==\"022d\", TAG+=\"uaccess\", GROUP=\"plugdev\", MODE=\"0660\"\n"
    <> "\n" <> "# Kensington VeriMark by Synaptics Inc.\n"
    <> "KERNEL==\"hidraw*\", SUBSYSTEM==\"hidraw\", ATTRS{idVendor}==\"06cb\", ATTRS{idProduct}==\"0088\", TAG+=\"uaccess\", GROUP=\"plugdev\", MODE=\"0660\"\n"
    <> "\n" <> "# FS ePass FIDO by Feitian Technologies Co., Ltd.\n"
    <> "KERNEL==\"hidraw*\", SUBSYSTEM==\"hidraw\", ATTRS{idVendor}==\"096e\", ATTRS{idProduct}==\"0850\", TAG+=\"uaccess\", GROUP=\"plugdev\", MODE=\"0660\"\n"
    <> "\n" <> "# Unknown product by Feitian Technologies Co., Ltd.\n"
    <> "KERNEL==\"hidraw*\", SUBSYSTEM==\"hidraw\", ATTRS{idVendor}==\"096e\", ATTRS{idProduct}==\"0852\", TAG+=\"uaccess\", GROUP=\"plugdev\", MODE=\"0660\"\n"
    <> "\n" <> "# Unknown product by Feitian Technologies Co., Ltd.\n"
    <> "KERNEL==\"hidraw*\", SUBSYSTEM==\"hidraw\", ATTRS{idVendor}==\"096e\", ATTRS{idProduct}==\"0853\", TAG+=\"uaccess\", GROUP=\"plugdev\", MODE=\"0660\"\n"
    <> "\n" <> "# Unknown product by Feitian Technologies Co., Ltd.\n"
    <> "KERNEL==\"hidraw*\", SUBSYSTEM==\"hidraw\", ATTRS{idVendor}==\"096e\", ATTRS{idProduct}==\"0854\", TAG+=\"uaccess\", GROUP=\"plugdev\", MODE=\"0660\"\n"
    <> "\n" <> "# Unknown product by Feitian Technologies Co., Ltd.\n"
    <> "KERNEL==\"hidraw*\", SUBSYSTEM==\"hidraw\", ATTRS{idVendor}==\"096e\", ATTRS{idProduct}==\"0856\", TAG+=\"uaccess\", GROUP=\"plugdev\", MODE=\"0660\"\n"
    <> "\n" <> "# Unknown product by Feitian Technologies Co., Ltd.\n"
    <> "KERNEL==\"hidraw*\", SUBSYSTEM==\"hidraw\", ATTRS{idVendor}==\"096e\", ATTRS{idProduct}==\"0858\", TAG+=\"uaccess\", GROUP=\"plugdev\", MODE=\"0660\"\n"
    <> "\n" <> "# FS MultiPass FIDO U2F by Feitian Technologies Co., Ltd.\n"
    <> "KERNEL==\"hidraw*\", SUBSYSTEM==\"hidraw\", ATTRS{idVendor}==\"096e\", ATTRS{idProduct}==\"085a\", TAG+=\"uaccess\", GROUP=\"plugdev\", MODE=\"0660\"\n"
    <> "\n" <> "# Unknown product by Feitian Technologies Co., Ltd.\n"
    <> "KERNEL==\"hidraw*\", SUBSYSTEM==\"hidraw\", ATTRS{idVendor}==\"096e\", ATTRS{idProduct}==\"085b\", TAG+=\"uaccess\", GROUP=\"plugdev\", MODE=\"0660\"\n"
    <> "\n" <> "# Unknown product by Feitian Technologies Co., Ltd.\n"
    <> "KERNEL==\"hidraw*\", SUBSYSTEM==\"hidraw\", ATTRS{idVendor}==\"096e\", ATTRS{idProduct}==\"085d\", TAG+=\"uaccess\", GROUP=\"plugdev\", MODE=\"0660\"\n"
    <> "\n" <> "# BioPass FIDO2 K33 by Feitian Technologies Co., Ltd.\n"
    <> "KERNEL==\"hidraw*\", SUBSYSTEM==\"hidraw\", ATTRS{idVendor}==\"096e\", ATTRS{idProduct}==\"0866\", TAG+=\"uaccess\", GROUP=\"plugdev\", MODE=\"0660\"\n"
    <> "\n" <> "# BioPass FIDO2 K43 by Feitian Technologies Co., Ltd.\n"
    <> "KERNEL==\"hidraw*\", SUBSYSTEM==\"hidraw\", ATTRS{idVendor}==\"096e\", ATTRS{idProduct}==\"0867\", TAG+=\"uaccess\", GROUP=\"plugdev\", MODE=\"0660\"\n"
    <> "\n" <> "# Hypersecu HyperFIDO by Feitian Technologies Co., Ltd.\n"
    <> "KERNEL==\"hidraw*\", SUBSYSTEM==\"hidraw\", ATTRS{idVendor}==\"096e\", ATTRS{idProduct}==\"0880\", TAG+=\"uaccess\", GROUP=\"plugdev\", MODE=\"0660\"\n"
    <> "\n" <> "# YubiKey NEO FIDO by Yubico AB\n"
    <> "KERNEL==\"hidraw*\", SUBSYSTEM==\"hidraw\", ATTRS{idVendor}==\"1050\", ATTRS{idProduct}==\"0113\", TAG+=\"uaccess\", GROUP=\"plugdev\", MODE=\"0660\"\n"
    <> "\n" <> "# YubiKey NEO OTP+FIDO by Yubico AB\n"
    <> "KERNEL==\"hidraw*\", SUBSYSTEM==\"hidraw\", ATTRS{idVendor}==\"1050\", ATTRS{idProduct}==\"0114\", TAG+=\"uaccess\", GROUP=\"plugdev\", MODE=\"0660\"\n"
    <> "\n" <> "# YubiKey NEO FIDO+CCID by Yubico AB\n"
    <> "KERNEL==\"hidraw*\", SUBSYSTEM==\"hidraw\", ATTRS{idVendor}==\"1050\", ATTRS{idProduct}==\"0115\", TAG+=\"uaccess\", GROUP=\"plugdev\", MODE=\"0660\"\n"
    <> "\n" <> "# YubiKey NEO OTP+FIDO+CCID by Yubico AB\n"
    <> "KERNEL==\"hidraw*\", SUBSYSTEM==\"hidraw\", ATTRS{idVendor}==\"1050\", ATTRS{idProduct}==\"0116\", TAG+=\"uaccess\", GROUP=\"plugdev\", MODE=\"0660\"\n"
    <> "\n" <> "# Security Key by Yubico by Yubico AB\n"
    <> "KERNEL==\"hidraw*\", SUBSYSTEM==\"hidraw\", ATTRS{idVendor}==\"1050\", ATTRS{idProduct}==\"0120\", TAG+=\"uaccess\", GROUP=\"plugdev\", MODE=\"0660\"\n"
    <> "\n" <> "# Unknown product by Yubico AB\n"
    <> "KERNEL==\"hidraw*\", SUBSYSTEM==\"hidraw\", ATTRS{idVendor}==\"1050\", ATTRS{idProduct}==\"0121\", TAG+=\"uaccess\", GROUP=\"plugdev\", MODE=\"0660\"\n"
    <> "\n" <> "# Gnubby U2F by Yubico AB\n"
    <> "KERNEL==\"hidraw*\", SUBSYSTEM==\"hidraw\", ATTRS{idVendor}==\"1050\", ATTRS{idProduct}==\"0200\", TAG+=\"uaccess\", GROUP=\"plugdev\", MODE=\"0660\"\n"
    <> "\n" <> "# YubiKey 4 FIDO by Yubico AB\n"
    <> "KERNEL==\"hidraw*\", SUBSYSTEM==\"hidraw\", ATTRS{idVendor}==\"1050\", ATTRS{idProduct}==\"0402\", TAG+=\"uaccess\", GROUP=\"plugdev\", MODE=\"0660\"\n"
    <> "\n" <> "# YubiKey 4 OTP+FIDO by Yubico AB\n"
    <> "KERNEL==\"hidraw*\", SUBSYSTEM==\"hidraw\", ATTRS{idVendor}==\"1050\", ATTRS{idProduct}==\"0403\", TAG+=\"uaccess\", GROUP=\"plugdev\", MODE=\"0660\"\n"
    <> "\n" <> "# YubiKey 4 FIDO+CCID by Yubico AB\n"
    <> "KERNEL==\"hidraw*\", SUBSYSTEM==\"hidraw\", ATTRS{idVendor}==\"1050\", ATTRS{idProduct}==\"0406\", TAG+=\"uaccess\", GROUP=\"plugdev\", MODE=\"0660\"\n"
    <> "\n" <> "# YubiKey 4 OTP+FIDO+CCID by Yubico AB\n"
    <> "KERNEL==\"hidraw*\", SUBSYSTEM==\"hidraw\", ATTRS{idVendor}==\"1050\", ATTRS{idProduct}==\"0407\", TAG+=\"uaccess\", GROUP=\"plugdev\", MODE=\"0660\"\n"
    <> "\n" <> "# YubiKey Plus by Yubico AB\n"
    <> "KERNEL==\"hidraw*\", SUBSYSTEM==\"hidraw\", ATTRS{idVendor}==\"1050\", ATTRS{idProduct}==\"0410\", TAG+=\"uaccess\", GROUP=\"plugdev\", MODE=\"0660\"\n"
    <> "\n" <> "# U2F Zero by Silicon Laboratories, Inc.\n"
    <> "KERNEL==\"hidraw*\", SUBSYSTEM==\"hidraw\", ATTRS{idVendor}==\"10c4\", ATTRS{idProduct}==\"8acf\", TAG+=\"uaccess\", GROUP=\"plugdev\", MODE=\"0660\"\n"
    <> "\n" <> "# SoloKeys SoloHacker by pid.codes\n"
    <> "KERNEL==\"hidraw*\", SUBSYSTEM==\"hidraw\", ATTRS{idVendor}==\"1209\", ATTRS{idProduct}==\"5070\", TAG+=\"uaccess\", GROUP=\"plugdev\", MODE=\"0660\"\n"
    <> "\n" <> "# SoloKeys SoloBoot by pid.codes\n"
    <> "KERNEL==\"hidraw*\", SUBSYSTEM==\"hidraw\", ATTRS{idVendor}==\"1209\", ATTRS{idProduct}==\"50b0\", TAG+=\"uaccess\", GROUP=\"plugdev\", MODE=\"0660\"\n"
    <> "\n" <> "# SatoshiLabs TREZOR by pid.codes\n"
    <> "KERNEL==\"hidraw*\", SUBSYSTEM==\"hidraw\", ATTRS{idVendor}==\"1209\", ATTRS{idProduct}==\"53c1\", TAG+=\"uaccess\", GROUP=\"plugdev\", MODE=\"0660\"\n"
    <> "\n" <> "# SoloKeys v2 by pid.codes\n"
    <> "KERNEL==\"hidraw*\", SUBSYSTEM==\"hidraw\", ATTRS{idVendor}==\"1209\", ATTRS{idProduct}==\"beee\", TAG+=\"uaccess\", GROUP=\"plugdev\", MODE=\"0660\"\n"
    <> "\n" <> "# Google Titan U2F by Google Inc.\n"
    <> "KERNEL==\"hidraw*\", SUBSYSTEM==\"hidraw\", ATTRS{idVendor}==\"18d1\", ATTRS{idProduct}==\"5026\", TAG+=\"uaccess\", GROUP=\"plugdev\", MODE=\"0660\"\n"
    <> "\n" <> "# VASCO SecureClick by VASCO Data Security NV\n"
    <> "KERNEL==\"hidraw*\", SUBSYSTEM==\"hidraw\", ATTRS{idVendor}==\"1a44\", ATTRS{idProduct}==\"00bb\", TAG+=\"uaccess\", GROUP=\"plugdev\", MODE=\"0660\"\n"
    <> "\n" <> "# OnlyKey (FIDO2/U2F) by OpenMoko, Inc.\n"
    <> "KERNEL==\"hidraw*\", SUBSYSTEM==\"hidraw\", ATTRS{idVendor}==\"1d50\", ATTRS{idProduct}==\"60fc\", TAG+=\"uaccess\", GROUP=\"plugdev\", MODE=\"0660\"\n"
    <> "\n" <> "# Neowave Keydo AES by NEOWAVE\n"
    <> "KERNEL==\"hidraw*\", SUBSYSTEM==\"hidraw\", ATTRS{idVendor}==\"1e0d\", ATTRS{idProduct}==\"f1ae\", TAG+=\"uaccess\", GROUP=\"plugdev\", MODE=\"0660\"\n"
    <> "\n" <> "# Neowave Keydo by NEOWAVE\n"
    <> "KERNEL==\"hidraw*\", SUBSYSTEM==\"hidraw\", ATTRS{idVendor}==\"1e0d\", ATTRS{idProduct}==\"f1d0\", TAG+=\"uaccess\", GROUP=\"plugdev\", MODE=\"0660\"\n"
    <> "\n" <> "# Thethis Key by Shenzhen Excelsecu Data Technology Co., Ltd.\n"
    <> "KERNEL==\"hidraw*\", SUBSYSTEM==\"hidraw\", ATTRS{idVendor}==\"1ea8\", ATTRS{idProduct}==\"f025\", TAG+=\"uaccess\", GROUP=\"plugdev\", MODE=\"0660\"\n"
    <> "\n" <> "# ExcelSecu FIDO2 Security Key by Shenzhen Excelsecu Data Technology Co., Ltd.\n"
    <> "KERNEL==\"hidraw*\", SUBSYSTEM==\"hidraw\", ATTRS{idVendor}==\"1ea8\", ATTRS{idProduct}==\"fc25\", TAG+=\"uaccess\", GROUP=\"plugdev\", MODE=\"0660\"\n"
    <> "\n" <> "# GoTrust Idem Key by NXP Semiconductors\n"
    <> "KERNEL==\"hidraw*\", SUBSYSTEM==\"hidraw\", ATTRS{idVendor}==\"1fc9\", ATTRS{idProduct}==\"f143\", TAG+=\"uaccess\", GROUP=\"plugdev\", MODE=\"0660\"\n"
    <> "\n" <> "# Nitrokey FIDO U2F by Clay Logic\n"
    <> "KERNEL==\"hidraw*\", SUBSYSTEM==\"hidraw\", ATTRS{idVendor}==\"20a0\", ATTRS{idProduct}==\"4287\", TAG+=\"uaccess\", GROUP=\"plugdev\", MODE=\"0660\"\n"
    <> "\n" <> "# Nitrokey FIDO2 by Clay Logic\n"
    <> "KERNEL==\"hidraw*\", SUBSYSTEM==\"hidraw\", ATTRS{idVendor}==\"20a0\", ATTRS{idProduct}==\"42b1\", TAG+=\"uaccess\", GROUP=\"plugdev\", MODE=\"0660\"\n"
    <> "\n" <> "# Nitrokey 3C NFC by Clay Logic\n"
    <> "KERNEL==\"hidraw*\", SUBSYSTEM==\"hidraw\", ATTRS{idVendor}==\"20a0\", ATTRS{idProduct}==\"42b2\", TAG+=\"uaccess\", GROUP=\"plugdev\", MODE=\"0660\"\n"
    <> "\n" <> "# Safetech SafeKey by Clay Logic\n"
    <> "KERNEL==\"hidraw*\", SUBSYSTEM==\"hidraw\", ATTRS{idVendor}==\"20a0\", ATTRS{idProduct}==\"42b3\", TAG+=\"uaccess\", GROUP=\"plugdev\", MODE=\"0660\"\n"
    <> "\n" <> "# CanoKey by Clay Logic\n"
    <> "KERNEL==\"hidraw*\", SUBSYSTEM==\"hidraw\", ATTRS{idVendor}==\"20a0\", ATTRS{idProduct}==\"42d4\", TAG+=\"uaccess\", GROUP=\"plugdev\", MODE=\"0660\"\n"
    <> "\n" <> "# JaCarta U2F by Aladdin Software Security R.D.\n"
    <> "KERNEL==\"hidraw*\", SUBSYSTEM==\"hidraw\", ATTRS{idVendor}==\"24dc\", ATTRS{idProduct}==\"0101\", TAG+=\"uaccess\", GROUP=\"plugdev\", MODE=\"0660\"\n"
    <> "\n" <> "# JaCarta U2F by Aladdin Software Security R.D.\n"
    <> "KERNEL==\"hidraw*\", SUBSYSTEM==\"hidraw\", ATTRS{idVendor}==\"24dc\", ATTRS{idProduct}==\"0501\", TAG+=\"uaccess\", GROUP=\"plugdev\", MODE=\"0660\"\n"
    <> "\n" <> "# Happlink Security Key by Plug‐up\n"
    <> "KERNEL==\"hidraw*\", SUBSYSTEM==\"hidraw\", ATTRS{idVendor}==\"2581\", ATTRS{idProduct}==\"f1d0\", TAG+=\"uaccess\", GROUP=\"plugdev\", MODE=\"0660\"\n"
    <> "\n" <> "# Bluink Key by Bluink Ltd\n"
    <> "KERNEL==\"hidraw*\", SUBSYSTEM==\"hidraw\", ATTRS{idVendor}==\"2abe\", ATTRS{idProduct}==\"1002\", TAG+=\"uaccess\", GROUP=\"plugdev\", MODE=\"0660\"\n"
    <> "\n" <> "# Ledger Blue by LEDGER\n"
    <> "KERNEL==\"hidraw*\", SUBSYSTEM==\"hidraw\", ATTRS{idVendor}==\"2c97\", ATTRS{idProduct}==\"0000\", TAG+=\"uaccess\", GROUP=\"plugdev\", MODE=\"0660\"\n"
    <> "\n" <> "# Ledger Nano S Old firmware by LEDGER\n"
    <> "KERNEL==\"hidraw*\", SUBSYSTEM==\"hidraw\", ATTRS{idVendor}==\"2c97\", ATTRS{idProduct}==\"0001\", TAG+=\"uaccess\", GROUP=\"plugdev\", MODE=\"0660\"\n"
    <> "\n" <> "# Ledger Nano X Old firmware by LEDGER\n"
    <> "KERNEL==\"hidraw*\", SUBSYSTEM==\"hidraw\", ATTRS{idVendor}==\"2c97\", ATTRS{idProduct}==\"0004\", TAG+=\"uaccess\", GROUP=\"plugdev\", MODE=\"0660\"\n"
    <> "\n" <> "# Ledger Blue by LEDGER\n"
    <> "KERNEL==\"hidraw*\", SUBSYSTEM==\"hidraw\", ATTRS{idVendor}==\"2c97\", ATTRS{idProduct}==\"0011\", TAG+=\"uaccess\", GROUP=\"plugdev\", MODE=\"0660\"\n"
    <> "\n" <> "# Ledger Blue Legacy by LEDGER\n"
    <> "KERNEL==\"hidraw*\", SUBSYSTEM==\"hidraw\", ATTRS{idVendor}==\"2c97\", ATTRS{idProduct}==\"0015\", TAG+=\"uaccess\", GROUP=\"plugdev\", MODE=\"0660\"\n"
    <> "\n" <> "# Ledger Nano S by LEDGER\n"
    <> "KERNEL==\"hidraw*\", SUBSYSTEM==\"hidraw\", ATTRS{idVendor}==\"2c97\", ATTRS{idProduct}==\"1011\", TAG+=\"uaccess\", GROUP=\"plugdev\", MODE=\"0660\"\n"
    <> "\n" <> "# Ledger Nano S Legacy by LEDGER\n"
    <> "KERNEL==\"hidraw*\", SUBSYSTEM==\"hidraw\", ATTRS{idVendor}==\"2c97\", ATTRS{idProduct}==\"1015\", TAG+=\"uaccess\", GROUP=\"plugdev\", MODE=\"0660\"\n"
    <> "\n" <> "# Ledger Nano X by LEDGER\n"
    <> "KERNEL==\"hidraw*\", SUBSYSTEM==\"hidraw\", ATTRS{idVendor}==\"2c97\", ATTRS{idProduct}==\"4011\", TAG+=\"uaccess\", GROUP=\"plugdev\", MODE=\"0660\"\n"
    <> "\n" <> "# Ledger Nano X Legacy by LEDGER\n"
    <> "KERNEL==\"hidraw*\", SUBSYSTEM==\"hidraw\", ATTRS{idVendor}==\"2c97\", ATTRS{idProduct}==\"4015\", TAG+=\"uaccess\", GROUP=\"plugdev\", MODE=\"0660\"\n"
    <> "\n" <> "# Hypersecu HyperFIDO by Hypersecu Information Systems, Inc.\n"
    <> "KERNEL==\"hidraw*\", SUBSYSTEM==\"hidraw\", ATTRS{idVendor}==\"2ccf\", ATTRS{idProduct}==\"0880\", TAG+=\"uaccess\", GROUP=\"plugdev\", MODE=\"0660\"\n"
    <> "\n" <> "# TrustKey Solutions FIDO2 G310 by eWBM Co., Ltd.\n"
    <> "KERNEL==\"hidraw*\", SUBSYSTEM==\"hidraw\", ATTRS{idVendor}==\"311f\", ATTRS{idProduct}==\"4a1a\", TAG+=\"uaccess\", GROUP=\"plugdev\", MODE=\"0660\"\n"
    <> "\n" <> "# TrustKey Solutions FIDO2 G310H/G320H by eWBM Co., Ltd.\n"
    <> "KERNEL==\"hidraw*\", SUBSYSTEM==\"hidraw\", ATTRS{idVendor}==\"311f\", ATTRS{idProduct}==\"4a2a\", TAG+=\"uaccess\", GROUP=\"plugdev\", MODE=\"0660\"\n"
    <> "\n" <> "# TrustKey Solutions FIDO2 G320 by eWBM Co., Ltd.\n"
    <> "KERNEL==\"hidraw*\", SUBSYSTEM==\"hidraw\", ATTRS{idVendor}==\"311f\", ATTRS{idProduct}==\"4c2a\", TAG+=\"uaccess\", GROUP=\"plugdev\", MODE=\"0660\"\n"
    <> "\n" <> "# eWBM FIDO2 Goldengate G500 by eWBM Co., Ltd.\n"
    <> "KERNEL==\"hidraw*\", SUBSYSTEM==\"hidraw\", ATTRS{idVendor}==\"311f\", ATTRS{idProduct}==\"5c2f\", TAG+=\"uaccess\", GROUP=\"plugdev\", MODE=\"0660\"\n"
    <> "\n" <> "# TrustKey Solutions FIDO2 T120 by eWBM Co., Ltd.\n"
    <> "KERNEL==\"hidraw*\", SUBSYSTEM==\"hidraw\", ATTRS{idVendor}==\"311f\", ATTRS{idProduct}==\"a6e9\", TAG+=\"uaccess\", GROUP=\"plugdev\", MODE=\"0660\"\n"
    <> "\n" <> "# TrustKey Solutions FIDO2 T110 by eWBM Co., Ltd.\n"
    <> "KERNEL==\"hidraw*\", SUBSYSTEM==\"hidraw\", ATTRS{idVendor}==\"311f\", ATTRS{idProduct}==\"a7f9\", TAG+=\"uaccess\", GROUP=\"plugdev\", MODE=\"0660\"\n"
    <> "\n" <> "# eWBM FIDO2 Goldengate G450 by eWBM Co., Ltd.\n"
    <> "KERNEL==\"hidraw*\", SUBSYSTEM==\"hidraw\", ATTRS{idVendor}==\"311f\", ATTRS{idProduct}==\"f47c\", TAG+=\"uaccess\", GROUP=\"plugdev\", MODE=\"0660\"\n"
    <> "\n" <> "# Idem Key by GoTrustID Inc.\n"
    <> "KERNEL==\"hidraw*\", SUBSYSTEM==\"hidraw\", ATTRS{idVendor}==\"32a3\", ATTRS{idProduct}==\"3201\", TAG+=\"uaccess\", GROUP=\"plugdev\", MODE=\"0660\"\n"
    <> "\n" <> "# Longmai mFIDO by Unknown vendor\n"
    <> "KERNEL==\"hidraw*\", SUBSYSTEM==\"hidraw\", ATTRS{idVendor}==\"4c4d\", ATTRS{idProduct}==\"f703\", TAG+=\"uaccess\", GROUP=\"plugdev\", MODE=\"0660\"\n"
    <> "\n" <> "# SatoshiLabs TREZOR by SatoshiLabs\n"
    <> "KERNEL==\"hidraw*\", SUBSYSTEM==\"hidraw\", ATTRS{idVendor}==\"534c\", ATTRS{idProduct}==\"0001\", TAG+=\"uaccess\", GROUP=\"plugdev\", MODE=\"0660\"\n"
    <> "\n" <> "LABEL=\"fido_end\"\n"

unfoldable pub build : Setting → Build ResourceId
build s = do
  apt_ready ← apt s
  package_ids ←
      each
        (λ name. add (
          Resource.apt_package (record default_apt_package { name = name; deps = apt_ready ∷ [] })))
        ("yubikey-manager" ∷ "libpam-yubico" ∷ "libpam-u2f" ∷ [])
  udev_rule ← add (
      Resource.file (record default_file {
        path = "/etc/udev/rules.d/70-u2f.rules";
        content = u2f_rules;
        mode = some 0o644;
        deps = [];
      }))
  udev_reload ← add (
      Resource.command (record default_command {
        name = "udevadm reload-rules + trigger";
        argv = "sh" ∷ "-c" ∷ "udevadm control --reload-rules && udevadm trigger" ∷ [];
        trigger_on = some (udev_rule ∷ []);
        deps = udev_rule ∷ [];
      }))
  let all = package_ids ++ ((udev_rule ∷ []) ++ (udev_reload ∷ []))
  add (Resource.marker (record default_marker { name = "yubico:ready"; deps = all }))

-- `Context::yubico`
unfoldable pub yubico : Setting → Build ResourceId
yubico s = memoized "yubico" (build s)
