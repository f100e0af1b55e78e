-- ===== src/Bundles/Fits/Packages.antt =====
-- `Fits` for the bundles in src/bundles/ that need apt only.
use ansible_playbooks.Common.{ℕ, ◌<◌, arith, [], ◌∷◌, ◌++◌}
use ansible_playbooks.Bundles.{Setting}
use ansible_playbooks.Bundles.Fits.{
  Fits, >>=-Fits, add-Fits, each-add-Fits, memoized-Fits, AreIds-append, AreIds-mono,
}
use ansible_playbooks.Bundles.Chrony
use ansible_playbooks.Bundles.Apparmor
use ansible_playbooks.Bundles.Et
use ansible_playbooks.Bundles.Flatpak
use ansible_playbooks.Bundles.Gpg
use ansible_playbooks.Bundles.Locales
use ansible_playbooks.Bundles.Nix
use ansible_playbooks.Bundles.Nvim
use ansible_playbooks.Bundles.Pip
use ansible_playbooks.Bundles.Snapd
use ansible_playbooks.Bundles.Tzdata
use ansible_playbooks.Bundles.Yubico
use ansible_playbooks.Bundles.Fits.Apt.{apt-Fits}

chrony_build-Fits : (s : Setting) {n : ℕ} → Fits ◌<◌ n (Chrony.build s)
unfolding Chrony.build
chrony_build-Fits s = >>=-Fits (apt-Fits s) λ apt_ready k1 le1 in1.
    >>=-Fits (add-Fits _ (omega arith)) λ pkg k2 le2 in2.
      >>=-Fits (add-Fits _ (omega arith)) λ service k3 le3 in3. add-Fits _ (omega arith)

pub chrony-Fits : (s : Setting) {n : ℕ} → Fits ◌<◌ n (Chrony.chrony s)
unfolding Chrony.chrony
chrony-Fits s = memoized-Fits "chrony" (Chrony.build s) (chrony_build-Fits s)

apparmor_build-Fits : (s : Setting) {n : ℕ} → Fits ◌<◌ n (Apparmor.build s)
unfolding Apparmor.build
apparmor_build-Fits s = >>=-Fits (apt-Fits s) λ apt_ready k1 le1 in1.
    >>=-Fits (add-Fits _ (omega arith)) λ pkg k2 le2 in2.
      >>=-Fits (add-Fits _ (omega arith)) λ bwrap_profile k3 le3 in3.
        >>=-Fits (add-Fits _ (omega arith)) λ service k4 le4 in4. add-Fits _ (omega arith)

pub apparmor-Fits : (s : Setting) {n : ℕ} → Fits ◌<◌ n (Apparmor.apparmor s)
unfolding Apparmor.apparmor
apparmor-Fits s = memoized-Fits "apparmor" (Apparmor.build s) (apparmor_build-Fits s)

et_build-Fits : (s : Setting) {n : ℕ} → Fits ◌<◌ n (Et.build s)
unfolding Et.build
et_build-Fits s = >>=-Fits (apt-Fits s) λ apt_ready k1 le1 in1.
    >>=-Fits (add-Fits _ (omega arith)) λ pin k2 le2 in2.
      >>=-Fits (add-Fits _ (omega arith)) λ legacy_key k3 le3 in3.
        >>=-Fits (add-Fits _ (omega arith)) λ key k4 le4 in4.
          >>=-Fits (add-Fits _ (omega arith)) λ repo k5 le5 in5.
            >>=-Fits (add-Fits _ (omega arith)) λ pkg k6 le6 in6.
              >>=-Fits (add-Fits _ (omega arith)) λ cfg k7 le7 in7.
                >>=-Fits (add-Fits _ (omega arith)) λ service k8 le8 in8. add-Fits _ (omega arith)

pub et-Fits : (s : Setting) {n : ℕ} → Fits ◌<◌ n (Et.et s)
unfolding Et.et
et-Fits s = memoized-Fits "et" (Et.build s) (et_build-Fits s)

flatpak_build-Fits : (s : Setting) {n : ℕ} → Fits ◌<◌ n (Flatpak.build s)
unfolding Flatpak.build
flatpak_build-Fits s = >>=-Fits (apt-Fits s) λ apt_ready k1 le1 in1.
    >>=-Fits (add-Fits _ (omega arith)) λ pkg k2 le2 in2.
      >>=-Fits (add-Fits _ (omega arith)) λ flathub k3 le3 in3. add-Fits _ (omega arith)

pub flatpak-Fits : (s : Setting) {n : ℕ} → Fits ◌<◌ n (Flatpak.flatpak s)
unfolding Flatpak.flatpak
flatpak-Fits s = memoized-Fits "flatpak" (Flatpak.build s) (flatpak_build-Fits s)

gpg_build-Fits : (s : Setting) {n : ℕ} → Fits ◌<◌ n (Gpg.build s)
unfolding Gpg.build
gpg_build-Fits s = >>=-Fits (apt-Fits s) λ apt_ready k1 le1 in1.
    >>=-Fits (add-Fits _ (omega arith)) λ pkg k2 le2 in2. add-Fits _ (omega arith)

pub gpg-Fits : (s : Setting) {n : ℕ} → Fits ◌<◌ n (Gpg.gpg s)
unfolding Gpg.gpg
gpg-Fits s = memoized-Fits "gpg" (Gpg.build s) (gpg_build-Fits s)

locales_build-Fits : (s : Setting) {n : ℕ} → Fits ◌<◌ n (Locales.build s)
unfolding Locales.build
locales_build-Fits s = >>=-Fits (apt-Fits s) λ apt_ready k1 le1 in1.
    >>=-Fits (add-Fits _ (omega arith)) λ pkg k2 le2 in2.
      >>=-Fits (add-Fits _ (omega arith)) λ locale_gen_file k3 le3 in3.
        >>=-Fits (add-Fits _ (omega arith)) λ locale_gen_cmd k4 le4 in4. add-Fits _ (omega arith)

pub locales-Fits : (s : Setting) {n : ℕ} → Fits ◌<◌ n (Locales.locales s)
unfolding Locales.locales
locales-Fits s = memoized-Fits "locales" (Locales.build s) (locales_build-Fits s)

nix_build-Fits : (s : Setting) {n : ℕ} → Fits ◌<◌ n (Nix.build s)
unfolding Nix.build
nix_build-Fits s = >>=-Fits (apt-Fits s) λ apt_ready k1 le1 in1.
    >>=-Fits (add-Fits _ (omega arith)) λ pkg k2 le2 in2. add-Fits _ (omega arith)

pub nix-Fits : (s : Setting) {n : ℕ} → Fits ◌<◌ n (Nix.nix s)
unfolding Nix.nix
nix-Fits s = memoized-Fits "nix" (Nix.build s) (nix_build-Fits s)

nvim_build-Fits : (s : Setting) {n : ℕ} → Fits ◌<◌ n (Nvim.build s)
unfolding Nvim.build
nvim_build-Fits s = >>=-Fits (apt-Fits s) λ apt_ready k1 le1 in1.
    >>=-Fits (add-Fits _ (omega arith)) λ pkg k2 le2 in2. add-Fits _ (omega arith)

pub nvim-Fits : (s : Setting) {n : ℕ} → Fits ◌<◌ n (Nvim.nvim s)
unfolding Nvim.nvim
nvim-Fits s = memoized-Fits "nvim" (Nvim.build s) (nvim_build-Fits s)

pip_build-Fits : (s : Setting) {n : ℕ} → Fits ◌<◌ n (Pip.build s)
unfolding Pip.build
pip_build-Fits s = >>=-Fits (apt-Fits s) λ apt_ready k1 le1 in1.
    >>=-Fits (each-add-Fits _ _ λ name j more. omega arith)
      λ pkg_ids k2 le2 in2. add-Fits _ (AreIds-mono pkg_ids (omega arith) in2)

pub pip-Fits : (s : Setting) {n : ℕ} → Fits ◌<◌ n (Pip.pip s)
unfolding Pip.pip
pip-Fits s = memoized-Fits "pip" (Pip.build s) (pip_build-Fits s)

snapd_build-Fits : (s : Setting) {n : ℕ} → Fits ◌<◌ n (Snapd.build s)
unfolding Snapd.build
snapd_build-Fits s = >>=-Fits (apt-Fits s) λ apt_ready k1 le1 in1.
    >>=-Fits (add-Fits _ (omega arith)) λ pkg k2 le2 in2. add-Fits _ (omega arith)

pub snapd-Fits : (s : Setting) {n : ℕ} → Fits ◌<◌ n (Snapd.snapd s)
unfolding Snapd.snapd
snapd-Fits s = memoized-Fits "snapd" (Snapd.build s) (snapd_build-Fits s)

tzdata_build-Fits : (s : Setting) {n : ℕ} → Fits ◌<◌ n (Tzdata.build s)
unfolding Tzdata.build
tzdata_build-Fits s = >>=-Fits (apt-Fits s) λ apt_ready k1 le1 in1.
    >>=-Fits (add-Fits _ (omega arith)) λ pkg k2 le2 in2.
      >>=-Fits (add-Fits _ (omega arith)) λ localtime k3 le3 in3.
        >>=-Fits (add-Fits _ (omega arith)) λ timezone k4 le4 in4. add-Fits _ (omega arith)

pub tzdata-Fits : (s : Setting) {n : ℕ} → Fits ◌<◌ n (Tzdata.tzdata s)
unfolding Tzdata.tzdata
tzdata-Fits s = memoized-Fits "tzdata" (Tzdata.build s) (tzdata_build-Fits s)

yubico_build-Fits : (s : Setting) {n : ℕ} → Fits ◌<◌ n (Yubico.build s)
unfolding Yubico.build
yubico_build-Fits s = >>=-Fits (apt-Fits s) λ apt_ready k1 le1 in1.
    >>=-Fits (each-add-Fits _ _ λ name j more. omega arith) λ package_ids k2 le2 in2.
      >>=-Fits (add-Fits _ (omega arith)) λ udev_rule k3 le3 in3.
        >>=-Fits (add-Fits _ (omega arith)) λ udev_reload k4 le4 in4. add-Fits _ (
          AreIds-append package_ids ((udev_rule ∷ []) ++ (udev_reload ∷ [])) k4
            (AreIds-mono package_ids (omega arith) in2)
            (AreIds-append (udev_rule ∷ []) (udev_reload ∷ []) k4 (omega arith) (omega arith)))

pub yubico-Fits : (s : Setting) {n : ℕ} → Fits ◌<◌ n (Yubico.yubico s)
unfolding Yubico.yubico
yubico-Fits s = memoized-Fits "yubico" (Yubico.build s) (yubico_build-Fits s)
