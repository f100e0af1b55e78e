-- ===== src/Backends/Batchers/Installs/Answers.antt =====
-- That src/backends/apt_package.rs installs what its specification says, a package at a time and in
-- batches.
use ansible_playbooks.Common.{
  ◌≡◌, ap, ◌∙◌, sym, String, false, not, List, map, filterb, if◌then◌else◌, subst,
}
use ansible_playbooks.Common.Results.{ok, pure, >>=-eq-ok}
use ansible_playbooks.Error.{BackendError}
use ansible_playbooks.Env.{Env, is_dry_run}
use ansible_playbooks.Host.{Host}
use ansible_playbooks.Resource.Ids.{Changed, changed_yes, changed_no}
use ansible_playbooks.Backends.User.{contains_name}
use ansible_playbooks.Backends.AptPackage.{AptPackage, read_installed_packages}
use ansible_playbooks.Backends.AptPackage.Manager.{IsDpkg, with_state}
use ansible_playbooks.Backends.Registry.{apt_package}
use ansible_playbooks.Backends.Batchers.{install_missing, converge_packages}
use ansible_playbooks.Backends.Batchers.Installs.{
  collect-packages, IsInstall, IsInstalled, queried, missing-present, answers_of-present,
  read-present, install_missing-IsInstalled,
}

module _ (H : Host) (M : IsDpkg H) where
  -- From the list of installed packages that was read.
  read-IsInstall :
      (names installed : List String) (s t t' s' : H.State) (answers : List Changed)
      → read_installed_packages H s ≡ (ok installed, t)
      → IsInstalled H (filterb (λ n. not (contains_name installed n)) names) t t'
      → pure {S = H.State} {E = BackendError}
          (map (λ n. if contains_name installed n then changed_no else changed_yes) names)
          t'
        ≡ (ok answers, s')
      → IsInstall H M names s s' answers
  read-IsInstall names installed s t t' s' answers read done last =
      let (known, after) = read-present H M s t installed read in
      let same : map (λ n. if contains_name installed n then changed_no else changed_yes) names
          ≡ answers =
        cc in
      let there : t' ≡ s' = cc in
      record {
        answers_lem =
            sym same
            ∙ ap (λ db. map (λ n. if contains_name db n then changed_no else changed_yes) names)
                known
            ∙ answers_of-present (M.database s) names;
        commands =
            subst (λ ns. IsInstalled H ns (queried H M s) s')
              (ap (λ db. filterb (λ n. not (contains_name db n)) names) known
                ∙ missing-present (M.database s) names)
              (subst
                (λ u. IsInstalled H (filterb (λ n. not (contains_name installed n)) names) u s')
                (sym after)
                (subst
                  (λ u. IsInstalled H (filterb (λ n. not (contains_name installed n)) names) t u)
                  there done));
      }

  -- If dpkg-query prints its database, and a run that writes converges a batch of packages, then it
  -- reports a change for those that dpkg does not list as installed and no change for the others,
  -- and it has run an update and one installation of exactly those, in their order, which both
  -- succeeded, or nothing if there are none.
  pub converge_packages-IsInstall :
      (ps : List AptPackage) (env : Env) (s s' : H.State) (answers : List Changed)
      → is_dry_run env ≡ false
      → converge_packages H (map apt_package ps) env s ≡ (ok answers, s')
      → IsInstall H M (map (λ p. p.name) ps) s s' answers
  unfolding converge_packages
  converge_packages-IsInstall ps env s s' answers real e =
      let names = map (λ (p : AptPackage). p.name) ps in
      let first = >>=-eq-ok (read_installed_packages H) _ s s' (rw (collect-packages ps) at e) in
      let t = (read_installed_packages H s).1 in
      let installed = first.0 in
      let wanted = filterb (λ n. not (contains_name installed n)) names in
      let second = >>=-eq-ok (install_missing H wanted env) _ t s' first.2 in
      read-IsInstall names installed s t (install_missing H wanted env t).1 s' answers
        (with_state (read_installed_packages H) s first.1)
        (install_missing-IsInstalled H wanted env t (install_missing H wanted env t).1 real
          (with_state (install_missing H wanted env) t second.1))
        second.2
