-- ===== src/Bundles/Fits/Apt.antt =====
-- `Fits` for src/bundles/apt.rs.
use ansible_playbooks.Common.{ℕ, ◌≤◌, ◌<◌, arith, Bool, [], ◌∷◌, ◌++◌, flatten}
use ansible_playbooks.Config.{AptRepo}
use ansible_playbooks.Bundles.{Setting}
use ansible_playbooks.Bundles.Fits.{
  Fits, >>=-Fits, add-Fits, each-add-Fits, rounds-Fits, when-Fits, pure-Fits, memoized-Fits, AreIds,
  AreIds-append, AreIds-mono, AreIds-flatten,
}
use ansible_playbooks.Bundles.Apt

confd_files-Fits : (s : Setting) {n : ℕ} → Fits AreIds n (Apt.confd_files s)
unfolding Apt.confd_files
confd_files-Fits s = >>=-Fits (add-Fits _ tt) λ recommends k1 le1 in1.
    >>=-Fits (add-Fits _ tt) λ allowunauth k2 le2 in2.
      >>=-Fits (add-Fits _ tt) λ timeout k3 le3 in3. >>=-Fits (add-Fits _ tt) λ periodic k4 le4 in4.
        >>=-Fits (add-Fits _ tt) λ release k5 le5 in5.
          >>=-Fits (add-Fits _ tt) λ debug k6 le6 in6. pure-Fits _ λ k le. omega arith

add_repo-Fits : (s : Setting) (repo : AptRepo) {n : ℕ} → Fits AreIds n (Apt.add_repo s repo)
unfolding Apt.add_repo
add_repo-Fits s repo =
    >>=-Fits (add-Fits _ tt)
      λ pin k1 le1 in1. >>=-Fits (add-Fits _ tt) λ list k2 le2 in2. pure-Fits _ λ k le. omega arith

ppa_key-Fits :
    (ppa_safronov_enabled : Bool) {n : ℕ} → Fits AreIds n (Apt.ppa_key ppa_safronov_enabled)
unfolding Apt.ppa_key
ppa_key-Fits ppa_safronov_enabled =
    when-Fits ppa_safronov_enabled
      (>>=-Fits (add-Fits _ tt) λ key k1 le1 in1. pure-Fits _ λ k le. omega arith)

apt_build-Fits : (s : Setting) {n : ℕ} → Fits ◌<◌ n (Apt.build s)
unfolding Apt.build
apt_build-Fits s = >>=-Fits (confd_files-Fits s) λ confd k1 le1 in1.
    >>=-Fits (each-add-Fits _ _ λ p j more. tt) λ cleanup k2 le2 in2.
      >>=-Fits (add-Fits _ tt) λ sources_list k3 le3 in3.
        >>=-Fits (add-Fits _ tt) λ ppa_pin k4 le4 in4.
          >>=-Fits
            (rounds-Fits (Apt.add_repo s) s.config.apt_repos λ repo k le. add_repo-Fits s repo)
            λ rounds k5 le5 in5. >>=-Fits (ppa_key-Fits _) λ key k6 le6 in6.
              let repo_resources = (sources_list ∷ ppa_pin ∷ []) ++ (flatten rounds ++ key) in
              let repos = λ (j : ℕ) (more : k6 ≤ j).
                AreIds-append (sources_list ∷ ppa_pin ∷ []) (flatten rounds ++ key) j (omega arith)
                  (AreIds-append (flatten rounds) key j
                    (AreIds-mono _ (omega arith) (AreIds-flatten rounds k5 in5))
                    (AreIds-mono key more in6)) in
              let confds = λ (j : ℕ) (more : k6 ≤ j). AreIds-mono confd {n = j} (omega arith) in1 in
              let cleanups =
                λ (j : ℕ) (more : k6 ≤ j). AreIds-mono cleanup {n = j} (omega arith) in2 in
              >>=-Fits
                (each-add-Fits _ _ λ name j more.
                  AreIds-append confd _ j (confds j more)
                    (AreIds-append repo_resources cleanup j (repos j more) (cleanups j more)))
                λ bootstrap k7 le7 in7. add-Fits _ (
                  AreIds-append confd _ k7 (confds k7 le7) (
                    AreIds-append cleanup _ k7 (cleanups k7 le7)
                      (AreIds-append repo_resources bootstrap k7 (repos k7 le7) in7)))

pub apt-Fits : (s : Setting) {n : ℕ} → Fits ◌<◌ n (Apt.apt s)
unfolding Apt.apt
apt-Fits s = memoized-Fits "apt" (Apt.build s) (apt_build-Fits s)
