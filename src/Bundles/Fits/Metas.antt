-- ===== src/Bundles/Fits/Metas.antt =====
-- `Fits` for the bundles in src/bundles/ that gather others.
use ansible_playbooks.Common.{ℕ, ◌<◌, arith, [], ◌∷◌}
use ansible_playbooks.Resource.Ids.{ResourceId}
use ansible_playbooks.Bundles.{Setting}
use ansible_playbooks.Bundles.Fits.{
  Fits, >>=-Fits, add-Fits, each-add-Fits, memoized-Fits, AreIds-append, AreIds-mono,
}
use ansible_playbooks.Bundles.CommonTweaks
use ansible_playbooks.Bundles.CommonTools
use ansible_playbooks.Bundles.Common
use ansible_playbooks.Bundles.UbuntuDevserver
use ansible_playbooks.Bundles.Devserver
use ansible_playbooks.Bundles.CommonDevserver
use ansible_playbooks.Bundles.Fits.Machines.{
  apc_ups-Fits, ca_cert-Fits, iptables-Fits, libvirtd-Fits, lvm-Fits, nvidia-Fits, systemd-Fits,
  tuxedo-Fits,
}
use ansible_playbooks.Bundles.Fits.Packages.{
  apparmor-Fits, chrony-Fits, et-Fits, flatpak-Fits, gpg-Fits, locales-Fits, nix-Fits, nvim-Fits,
  pip-Fits, snapd-Fits, tzdata-Fits, yubico-Fits,
}
use ansible_playbooks.Bundles.Fits.Apt.{apt-Fits}
use ansible_playbooks.Bundles.Fits.Containers.{
  docker-Fits, node_exporter-Fits, smartctl_exporter-Fits,
}
use ansible_playbooks.Bundles.Fits.Users.{users-Fits}

pub common_tweaks_rest-Fits :
    (s : Setting) (apt_ready users_ready : ResourceId) {n : ℕ}
    → apt_ready < n
    → users_ready < n
    → Fits ◌<◌ n (CommonTweaks.build_rest s apt_ready users_ready)
unfolding CommonTweaks.build_rest
common_tweaks_rest-Fits s apt_ready users_ready lt₁ lt₂ =
    >>=-Fits (tzdata-Fits s) λ tzdata_ready k3 le3 in3.
      >>=-Fits (ca_cert-Fits s) λ ca_cert_ready k4 le4 in4.
        >>=-Fits (chrony-Fits s) λ chrony_ready k5 le5 in5.
          >>=-Fits (gpg-Fits s) λ gpg_ready k6 le6 in6.
            >>=-Fits (locales-Fits s) λ locales_ready k7 le7 in7.
              >>=-Fits (apparmor-Fits s) λ apparmor_ready k8 le8 in8.
                >>=-Fits (systemd-Fits s) λ systemd_ready k9 le9 in9.
                  >>=-Fits (nvidia-Fits s) λ nvidia_ready k10 le10 in10.
                    >>=-Fits (tuxedo-Fits s) λ tuxedo_ready k11 le11 in11.
                      >>=-Fits (apc_ups-Fits s) λ apc_ups_ready k12 le12 in12.
                        >>=-Fits (iptables-Fits s) λ iptables_ready k13 le13 in13.
                          >>=-Fits (lvm-Fits s) λ lvm_ready k14 le14 in14.
                            >>=-Fits (add-Fits _ (omega arith)) λ drivers k15 le15 in15.
                              >>=-Fits (add-Fits _ (omega arith)) λ sh_link k16 le16 in16.
                                >>=-Fits (add-Fits _ (omega arith)) λ history k17 le17 in17.
                                  >>=-Fits (each-add-Fits _ _ λ name j more. omega arith)
                                    λ vte_absents k18 le18 in18.
                                      >>=-Fits (add-Fits _ (omega arith))
                                        λ command_not_found_absent k19 le19 in19.
                                          >>=-Fits (add-Fits _ (omega arith))
                                            λ sysctl_file k20 le20 in20.
                                              >>=-Fits (add-Fits _ (omega arith))
                                                λ sysctl_reload k21 le21 in21.
                                                  >>=-Fits (add-Fits _ (omega arith))
                                                    λ drivers_install k22 le22 in22.
                                                      >>=-Fits (add-Fits _ (omega arith))
                                                        λ kernel_headers k23 le23 in23. add-Fits _ (
                                                          AreIds-append
                                                            (users_ready ∷ tzdata_ready
                                                            ∷ ca_cert_ready ∷ chrony_ready
                                                            ∷ gpg_ready ∷ locales_ready
                                                            ∷ apparmor_ready ∷ systemd_ready
                                                            ∷ nvidia_ready ∷ tuxedo_ready
                                                            ∷ apc_ups_ready ∷ iptables_ready
                                                            ∷ lvm_ready ∷ drivers ∷ sh_link
                                                            ∷ history ∷ command_not_found_absent
                                                            ∷ sysctl_file ∷ sysctl_reload
                                                            ∷ drivers_install ∷ kernel_headers ∷ [])
                                                            vte_absents k23 (omega arith)
                                                            (AreIds-mono vte_absents (omega arith)
                                                            in18))

common_tweaks_build-Fits : (s : Setting) {n : ℕ} → Fits ◌<◌ n (CommonTweaks.build s)
unfolding CommonTweaks.build
common_tweaks_build-Fits s = >>=-Fits (apt-Fits s) λ apt_ready k le lt.
    >>=-Fits (users-Fits s)
      λ users_ready j more lt₂. common_tweaks_rest-Fits s apt_ready users_ready (omega arith) lt₂

pub common_tweaks-Fits : (s : Setting) {n : ℕ} → Fits ◌<◌ n (CommonTweaks.common_tweaks s)
unfolding CommonTweaks.common_tweaks
common_tweaks-Fits s =
    memoized-Fits "common_tweaks" (CommonTweaks.build s) (common_tweaks_build-Fits s)

common_tools_build-Fits : (s : Setting) {n : ℕ} → Fits ◌<◌ n (CommonTools.build s)
unfolding CommonTools.build
common_tools_build-Fits s = >>=-Fits (apt-Fits s) λ apt_ready k1 le1 in1.
    >>=-Fits (pip-Fits s) λ pip_ready k2 le2 in2. >>=-Fits (snapd-Fits s) λ snapd_ready k3 le3 in3.
      >>=-Fits (flatpak-Fits s) λ flatpak_ready k4 le4 in4.
        >>=-Fits (yubico-Fits s) λ yubico_ready k5 le5 in5.
          >>=-Fits (nix-Fits s) λ nix_ready k6 le6 in6.
            >>=-Fits (each-add-Fits _ _ λ name j more. omega arith)
              λ pkg_ids k7 le7 in7. add-Fits _ (AreIds-append pkg_ids _ k7 in7 (omega arith))

pub common_tools-Fits : (s : Setting) {n : ℕ} → Fits ◌<◌ n (CommonTools.common_tools s)
unfolding CommonTools.common_tools
common_tools-Fits s = memoized-Fits "common_tools" (CommonTools.build s) (common_tools_build-Fits s)

common_build-Fits : (s : Setting) {n : ℕ} → Fits ◌<◌ n (Common.build s)
unfolding Common.build
common_build-Fits s = >>=-Fits (common_tweaks-Fits s) λ common_tweaks_ready k1 le1 in1.
    >>=-Fits (common_tools-Fits s) λ common_tools_ready k2 le2 in2. add-Fits _ (omega arith)

pub common-Fits : (s : Setting) {n : ℕ} → Fits ◌<◌ n (Common.common s)
unfolding Common.common
common-Fits s = memoized-Fits "common" (Common.build s) (common_build-Fits s)

ubuntu_devserver_build-Fits : (s : Setting) {n : ℕ} → Fits ◌<◌ n (UbuntuDevserver.build s)
unfolding UbuntuDevserver.build
ubuntu_devserver_build-Fits s = >>=-Fits (docker-Fits s) λ docker_ready k1 le1 in1.
    >>=-Fits (libvirtd-Fits s) λ libvirtd_ready k2 le2 in2.
      >>=-Fits (et-Fits s) λ et_ready k3 le3 in3. >>=-Fits (nvim-Fits s) λ nvim_ready k4 le4 in4.
        >>=-Fits (node_exporter-Fits s) λ node_exporter_ready k5 le5 in5.
          >>=-Fits (smartctl_exporter-Fits s)
            λ smartctl_exporter_ready k6 le6 in6. add-Fits _ (omega arith)

pub ubuntu_devserver-Fits : (s : Setting) {n : ℕ} → Fits ◌<◌ n (UbuntuDevserver.ubuntu_devserver s)
unfolding UbuntuDevserver.ubuntu_devserver
ubuntu_devserver-Fits s =
    memoized-Fits "ubuntu_devserver" (UbuntuDevserver.build s) (ubuntu_devserver_build-Fits s)

devserver_build-Fits : (s : Setting) {n : ℕ} → Fits ◌<◌ n (Devserver.build s)
unfolding Devserver.build
devserver_build-Fits s =
    >>=-Fits (ubuntu_devserver-Fits s) λ ubuntu_devserver_ready k1 le1 in1. add-Fits _ (omega arith)

pub devserver-Fits : (s : Setting) {n : ℕ} → Fits ◌<◌ n (Devserver.devserver s)
unfolding Devserver.devserver
devserver-Fits s = memoized-Fits "devserver" (Devserver.build s) (devserver_build-Fits s)

common_devserver_build-Fits : (s : Setting) {n : ℕ} → Fits ◌<◌ n (CommonDevserver.build s)
unfolding CommonDevserver.build
common_devserver_build-Fits s = >>=-Fits (common-Fits s) λ common_ready k1 le1 in1.
    >>=-Fits (devserver-Fits s) λ devserver_ready k2 le2 in2. add-Fits _ (omega arith)

pub common_devserver-Fits : (s : Setting) {n : ℕ} → Fits ◌<◌ n (CommonDevserver.common_devserver s)
unfolding CommonDevserver.common_devserver
common_devserver-Fits s =
    memoized-Fits "common_devserver" (CommonDevserver.build s) (common_devserver_build-Fits s)
