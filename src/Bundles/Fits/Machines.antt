-- ===== src/Bundles/Fits/Machines.antt =====
-- `Fits` for the bundles in src/bundles/ for the machine, its network and its drivers.
use ansible_playbooks.Common.{ℕ, ◌<◌, arith, [], ◌∷◌, ◌++◌}
use ansible_playbooks.Bundles.{Setting}
use ansible_playbooks.Bundles.Fits.{
  Fits, >>=-Fits, add-Fits, each-add-Fits, memoized-Fits, AreIds-append, AreIds-mono, if-Fits,
}
use ansible_playbooks.Bundles.Systemd
use ansible_playbooks.Bundles.Lvm
use ansible_playbooks.Bundles.Libvirtd
use ansible_playbooks.Bundles.Tailscale
use ansible_playbooks.Bundles.Iptables
use ansible_playbooks.Bundles.ApcUps
use ansible_playbooks.Bundles.Tuxedo
use ansible_playbooks.Bundles.Virtualbox
use ansible_playbooks.Bundles.CaCert
use ansible_playbooks.Bundles.Nvidia
use ansible_playbooks.Bundles.Fits.Apt.{apt-Fits}

systemd_build-Fits : (s : Setting) {n : ℕ} → Fits ◌<◌ n (Systemd.build s)
unfolding Systemd.build
systemd_build-Fits s = >>=-Fits (apt-Fits s) λ apt_ready k1 le1 in1.
    >>=-Fits (add-Fits _ (omega arith)) λ conf k2 le2 in2.
      >>=-Fits (add-Fits _ (omega arith)) λ service k3 le3 in3. add-Fits _ (omega arith)

pub systemd-Fits : (s : Setting) {n : ℕ} → Fits ◌<◌ n (Systemd.systemd s)
unfolding Systemd.systemd
systemd-Fits s = memoized-Fits "systemd" (Systemd.build s) (systemd_build-Fits s)

lvm_build-Fits : (s : Setting) {n : ℕ} → Fits ◌<◌ n (Lvm.build s)
unfolding Lvm.build
lvm_build-Fits s = >>=-Fits (apt-Fits s) λ apt_ready k1 le1 in1.
    >>=-Fits (systemd-Fits s) λ systemd_ready k2 le2 in2.
      >>=-Fits (add-Fits _ (omega arith)) λ lvm2 k3 le3 in3.
        >>=-Fits (add-Fits _ (omega arith)) λ service_unit k4 le4 in4.
          >>=-Fits (add-Fits _ (omega arith)) λ timer_unit k5 le5 in5.
            >>=-Fits (add-Fits _ (omega arith)) λ timer k6 le6 in6. add-Fits _ (omega arith)

pub lvm-Fits : (s : Setting) {n : ℕ} → Fits ◌<◌ n (Lvm.lvm s)
unfolding Lvm.lvm
lvm-Fits s = memoized-Fits "lvm" (Lvm.build s) (lvm_build-Fits s)

libvirtd_build-Fits : (s : Setting) {n : ℕ} → Fits ◌<◌ n (Libvirtd.build s)
unfolding Libvirtd.build
libvirtd_build-Fits s = >>=-Fits (apt-Fits s) λ apt_ready k1 le1 in1.
    >>=-Fits (each-add-Fits _ _ λ name j more. omega arith) λ pkg_ids k2 le2 in2.
      >>=-Fits (add-Fits _ (AreIds-mono pkg_ids (omega arith) in2)) λ security_driver k3 le3 in3.
        >>=-Fits
          (add-Fits _ (
            AreIds-append pkg_ids (security_driver ∷ []) k3 (AreIds-mono pkg_ids (omega arith) in2)
              (omega arith)))
          λ service k4 le4 in4. add-Fits _ (
            AreIds-append pkg_ids ((security_driver ∷ []) ++ (service ∷ [])) k4
              (AreIds-mono pkg_ids (omega arith) in2)
              (AreIds-append (security_driver ∷ []) (service ∷ []) k4 (omega arith) (omega arith)))

pub libvirtd-Fits : (s : Setting) {n : ℕ} → Fits ◌<◌ n (Libvirtd.libvirtd s)
unfolding Libvirtd.libvirtd
libvirtd-Fits s = memoized-Fits "libvirtd" (Libvirtd.build s) (libvirtd_build-Fits s)

tailscale_build-Fits : (s : Setting) {n : ℕ} → Fits ◌<◌ n (Tailscale.build s)
unfolding Tailscale.build
tailscale_build-Fits s = >>=-Fits (apt-Fits s) λ apt_ready k1 le1 in1.
    >>=-Fits (add-Fits _ (omega arith)) λ pin k2 le2 in2.
      >>=-Fits (add-Fits _ (omega arith)) λ legacy_key k3 le3 in3.
        >>=-Fits (add-Fits _ (omega arith)) λ key k4 le4 in4.
          >>=-Fits (add-Fits _ (omega arith)) λ repo k5 le5 in5.
            >>=-Fits (add-Fits _ (omega arith)) λ pkg k6 le6 in6. add-Fits _ (omega arith)

pub tailscale-Fits : (s : Setting) {n : ℕ} → Fits ◌<◌ n (Tailscale.tailscale s)
unfolding Tailscale.tailscale
tailscale-Fits s = memoized-Fits "tailscale" (Tailscale.build s) (tailscale_build-Fits s)

iptables_register-Fits : (s : Setting) {n : ℕ} → Fits ◌<◌ n (Iptables.register s)
unfolding Iptables.register
iptables_register-Fits s = >>=-Fits (apt-Fits s) λ apt_ready k1 le1 in1.
    >>=-Fits (tailscale-Fits s) λ tailscale_ready k2 le2 in2.
      >>=-Fits (add-Fits _ (omega arith)) λ pkg k3 le3 in3.
        >>=-Fits (add-Fits _ (omega arith)) λ netfilter_default k4 le4 in4.
          >>=-Fits (add-Fits _ (omega arith)) λ rules_v4 k5 le5 in5.
            >>=-Fits (add-Fits _ (omega arith)) λ rules_v6 k6 le6 in6.
              >>=-Fits (add-Fits _ (omega arith)) λ service k7 le7 in7. add-Fits _ (omega arith)

iptables_build-Fits : (s : Setting) {n : ℕ} → Fits ◌<◌ n (Iptables.build s)
unfolding Iptables.build
iptables_build-Fits s = if-Fits _ (add-Fits _ tt) (iptables_register-Fits s)

pub iptables-Fits : (s : Setting) {n : ℕ} → Fits ◌<◌ n (Iptables.iptables s)
unfolding Iptables.iptables
iptables-Fits s = memoized-Fits "iptables" (Iptables.build s) (iptables_build-Fits s)

apc_ups_register-Fits : (s : Setting) {n : ℕ} → Fits ◌<◌ n (ApcUps.register s)
unfolding ApcUps.register
apc_ups_register-Fits s = >>=-Fits (apt-Fits s) λ apt_ready k1 le1 in1.
    >>=-Fits (add-Fits _ (omega arith)) λ udev_pkg k2 le2 in2.
      >>=-Fits (add-Fits _ (omega arith)) λ rule k3 le3 in3.
        >>=-Fits (add-Fits _ (omega arith)) λ udev_reload k4 le4 in4. add-Fits _ (omega arith)

apc_ups_build-Fits : (s : Setting) {n : ℕ} → Fits ◌<◌ n (ApcUps.build s)
unfolding ApcUps.build
apc_ups_build-Fits s = if-Fits _ (add-Fits _ tt) (apc_ups_register-Fits s)

pub apc_ups-Fits : (s : Setting) {n : ℕ} → Fits ◌<◌ n (ApcUps.apc_ups s)
unfolding ApcUps.apc_ups
apc_ups-Fits s = memoized-Fits "apc_ups" (ApcUps.build s) (apc_ups_build-Fits s)

tuxedo_register-Fits : (s : Setting) {n : ℕ} → Fits ◌<◌ n (Tuxedo.register s)
unfolding Tuxedo.register
tuxedo_register-Fits s = >>=-Fits (apt-Fits s) λ apt_ready k1 le1 in1.
    >>=-Fits (add-Fits _ (omega arith)) λ pins k2 le2 in2.
      >>=-Fits (add-Fits _ (omega arith)) λ legacy_key k3 le3 in3.
        >>=-Fits (add-Fits _ (omega arith)) λ key k4 le4 in4.
          >>=-Fits (add-Fits _ (omega arith)) λ repo k5 le5 in5.
            >>=-Fits (each-add-Fits _ _ λ name j more. omega arith) λ package_ids k6 le6 in6.
              add-Fits _ (
                AreIds-append (pins ∷ legacy_key ∷ key ∷ repo ∷ []) package_ids k6 (omega arith)
                  (AreIds-mono package_ids (omega arith) in6))

tuxedo_build-Fits : (s : Setting) {n : ℕ} → Fits ◌<◌ n (Tuxedo.build s)
unfolding Tuxedo.build
tuxedo_build-Fits s = if-Fits _ (add-Fits _ tt) (tuxedo_register-Fits s)

pub tuxedo-Fits : (s : Setting) {n : ℕ} → Fits ◌<◌ n (Tuxedo.tuxedo s)
unfolding Tuxedo.tuxedo
tuxedo-Fits s = memoized-Fits "tuxedo" (Tuxedo.build s) (tuxedo_build-Fits s)

virtualbox_build-Fits : (s : Setting) {n : ℕ} → Fits ◌<◌ n (Virtualbox.build s)
unfolding Virtualbox.build
virtualbox_build-Fits s = >>=-Fits (apt-Fits s) λ apt_ready k1 le1 in1.
    >>=-Fits (add-Fits _ (omega arith)) λ pkg k2 le2 in2.
      >>=-Fits (each-add-Fits _ _ λ name j more. omega arith)
        λ guests k3 le3 in3. add-Fits _ (AreIds-append (pkg ∷ []) guests k3 (omega arith) in3)

pub virtualbox-Fits : (s : Setting) {n : ℕ} → Fits ◌<◌ n (Virtualbox.virtualbox s)
unfolding Virtualbox.virtualbox
virtualbox-Fits s = memoized-Fits "virtualbox" (Virtualbox.build s) (virtualbox_build-Fits s)

ca_cert_build-Fits : (s : Setting) {n : ℕ} → Fits ◌<◌ n (CaCert.build s)
unfolding CaCert.build
ca_cert_build-Fits s = >>=-Fits (apt-Fits s) λ apt_ready k1 le1 in1.
    >>=-Fits (add-Fits _ (omega arith)) λ pkg k2 le2 in2.
      >>=-Fits (each-add-Fits _ _ λ cert j more. omega arith) λ cert_ids k3 le3 in3.
        >>=-Fits (add-Fits _ (AreIds-append (pkg ∷ []) cert_ids k3 (omega arith) in3))
          λ update k4 le4 in4. add-Fits _ (
            AreIds-append (pkg ∷ []) _ k4 (omega arith)
              (AreIds-append cert_ids _ k4 (AreIds-mono cert_ids le4 in3) (omega arith)))

pub ca_cert-Fits : (s : Setting) {n : ℕ} → Fits ◌<◌ n (CaCert.ca_cert s)
unfolding CaCert.ca_cert
ca_cert-Fits s = memoized-Fits "ca_cert" (CaCert.build s) (ca_cert_build-Fits s)

nvidia_register-Fits : (s : Setting) {n : ℕ} → Fits ◌<◌ n (Nvidia.register s)
unfolding Nvidia.register
nvidia_register-Fits s = >>=-Fits (apt-Fits s) λ apt_ready k1 le1 in1.
    >>=-Fits (add-Fits _ (omega arith)) λ pin k2 le2 in2.
      >>=-Fits (add-Fits _ (omega arith)) λ legacy_key k3 le3 in3.
        >>=-Fits (add-Fits _ (omega arith)) λ key k4 le4 in4.
          >>=-Fits (add-Fits _ (omega arith)) λ repo k5 le5 in5.
            >>=-Fits (add-Fits _ (omega arith)) λ unattended_blacklist k6 le6 in6.
              >>=-Fits (add-Fits _ (omega arith)) λ toolkit k7 le7 in7. add-Fits _ (omega arith)

nvidia_build-Fits : (s : Setting) {n : ℕ} → Fits ◌<◌ n (Nvidia.build s)
unfolding Nvidia.build
nvidia_build-Fits s = if-Fits _ (add-Fits _ tt) (nvidia_register-Fits s)

pub nvidia-Fits : (s : Setting) {n : ℕ} → Fits ◌<◌ n (Nvidia.nvidia s)
unfolding Nvidia.nvidia
nvidia-Fits s = memoized-Fits "nvidia" (Nvidia.build s) (nvidia_build-Fits s)
