-- ===== src/Backends/Batchers/Installs.antt =====
-- What `AptPackage` and its batcher run, in src/backends/apt_package.rs, by dpkg's database.
pub mod Answers
use ansible_playbooks.Common.{
  ◌≡◌, refl, ap, ◌∙◌, sym, String, Bool, true, false, not, ◌&&◌, List, [], ◌∷◌, map, filterb, any,
  arith, if◌then◌else◌, Bool-cases, inl, inr, str_eq,
}
use text.Mathlib.Text.{starts_with}
use ansible_playbooks.Common.Results.{ok, ◌>>◌, >>=-eq-ok}
use ansible_playbooks.Env.{Env, is_dry_run}
use ansible_playbooks.Host.{Host, Output, command}
use ansible_playbooks.Resource.Ids.{Changed, changed_yes, changed_no}
use ansible_playbooks.Backends.User.{contains_name}
use ansible_playbooks.Backends.AptPackage.{
  AptPackage, apt_get, read_installed_packages, run_apt_update, run_apt_install, installed_names,
}
use ansible_playbooks.Common.Text.{lines}
use ansible_playbooks.Backends.AptPackage.Listing.{Entry, present, installed_names-print}
use ansible_playbooks.Backends.AptPackage.Manager.{IsDpkg, with_state, Output-eq-ok}
use ansible_playbooks.Backends.Registry.{apt_package}
use ansible_playbooks.Backends.Batchers.{as_package, collect, install_missing}

-- The package is in the database, with a status that begins with `ii`.
abbrev pub is_listed : List Entry → String → Bool
is_listed database name =
    any (λ (e : Entry). str_eq e.name name && starts_with e.status "ii") database

contains-present :
    (es : List Entry) (name : String) → contains_name (present es) name ≡ is_listed es name
contains-present [] name = refl
contains-present (e ∷ es) name = elim (Bool-cases (starts_with e.status "ii")) [
  | inl good ↦ ground (arith, good, contains-present es name)
  | inr bad ↦ ground (arith, bad, contains-present es name)
]

-- The packages that are not installed, in their order.
abbrev pub missing : List Entry → List String → List String
missing database names = filterb (λ name. not (is_listed database name)) names

abbrev pub answers_of : List Entry → List String → List Changed
answers_of database names =
    map (λ name. if is_listed database name then changed_no else changed_yes) names

pub missing-present :
    (es : List Entry) (names : List String)
    → filterb (λ name. not (contains_name (present es) name)) names ≡ missing es names
missing-present es [] = refl
missing-present es (n ∷ names) = ground (arith, contains-present es n, missing-present es names)

pub answers_of-present :
    (es : List Entry) (names : List String)
    → map (λ name. if contains_name (present es) name then changed_no else changed_yes) names
      ≡ answers_of es names
answers_of-present es [] = refl
answers_of-present es (n ∷ names) =
    ground (arith, contains-present es n, answers_of-present es names)

-- The program has run and succeeded.
pub record IsRun (H : Host) (args : List String) (s s' : H.State) : Type 0 where
  pub output : Output
  pub spawned : (H.spawn (apt_get args) s).0 ≡ ok output
  pub success : output.success ≡ true
  pub left : (H.spawn (apt_get args) s).1 ≡ s'

-- What is run for packages that are not installed: nothing if there are none, else an update and
-- one installation of them all, which both succeed.
abbrev pub IsInstalled : (H : Host) → List String → H.State → H.State → Type 0
IsInstalled H [] s s' = s ≡ s'
IsInstalled H (name ∷ names) s s' =
    (t : H.State) × IsRun H ("update" ∷ []) s t × IsRun H ("install" ∷ "-y" ∷ name ∷ names) t s'

module _ (H : Host) (M : IsDpkg H) where
  abbrev pub queried : H.State → H.State
  queried s =
      (H.spawn (command ("dpkg-query" ∷ "-W" ∷ "-f=${Package}\t${db:Status-Abbrev}\n" ∷ [])) s).1

  -- The specification, for any packages at once: the answers say which of them dpkg did not list as
  -- installed, and those are installed by one command.
  pub record IsInstall (names : List String) (s s' : H.State) (answers : List Changed)
      : Type 0 where
    pub answers_lem : answers ≡ answers_of (M.database s) names
    pub commands : IsInstalled H (missing (M.database s) names) (queried s) s'

  read-present :
      (s s' : H.State) (names : List String)
      → read_installed_packages H s ≡ (ok names, s')
      → (names ≡ present (M.database s)) × (queried s ≡ s')
  unfolding read_installed_packages
  read-present s s' names e =
      let query =
        H.spawn (command ("dpkg-query" ∷ "-W" ∷ "-f=${Package}\t${db:Status-Abbrev}\n" ∷ [])) s in
      let (o, spawned, good, read, after) =
        Output-eq-ok query.0 "apt-package" "spawn dpkg-query to read apt state"
          (λ o. installed_names (lines o.stdout)) _ query.1 s' names e in
      (
        sym read
            ∙ ap (λ out. installed_names (lines out)) (M.listed s o spawned good)
            ∙ installed_names-print (M.database s) (M.plain s),
        after,
      )

module _ (H : Host) where
  run_apt_update-IsRun :
      (s s' : H.State) {u : Unit {0}}
      → run_apt_update H s ≡ (ok u, s')
      → IsRun H ("update" ∷ []) s s'
  unfolding run_apt_update
  run_apt_update-IsRun s s' {u} e =
      let run = H.spawn (apt_get ("update" ∷ [])) s in
      let (o, spawned, good, same, after) =
        Output-eq-ok run.0 "apt-package" "spawn apt-get update" (λ _. tt) _ run.1 s' u e in
      record { output = o; spawned = spawned; success = good; left = after }

  run_apt_install-IsRun :
      (n : String) (names : List String) (s s' : H.State) {u : Unit {0}}
      → run_apt_install H (n ∷ names) s ≡ (ok u, s')
      → IsRun H ("install" ∷ "-y" ∷ n ∷ names) s s'
  unfolding run_apt_install
  run_apt_install-IsRun n names s s' {u} e =
      let run = H.spawn (apt_get ("install" ∷ "-y" ∷ n ∷ names)) s in
      let (o, spawned, good, same, after) =
        Output-eq-ok run.0 "apt-package" "spawn apt-get install" (λ _. tt) _ run.1 s' u e in
      record { output = o; spawned = spawned; success = good; left = after }

  update_and_install-IsInstalled :
      (n : String) (names : List String) (s s' : H.State) {u : Unit {0}}
      → (run_apt_update H >> run_apt_install H (n ∷ names)) s ≡ (ok u, s')
      → IsInstalled H (n ∷ names) s s'
  update_and_install-IsInstalled n names s s' e =
      let both = >>=-eq-ok (run_apt_update H) (λ _. run_apt_install H (n ∷ names)) s s' e in
      let t = (run_apt_update H s).1 in
      (
        t,
        run_apt_update-IsRun s t (with_state (run_apt_update H) s both.1),
        run_apt_install-IsRun n names t s' both.2,
      )

  install_missing-IsInstalled :
      (names : List String) (env : Env) (s s' : H.State) {u : Unit {0}}
      → is_dry_run env ≡ false
      → install_missing H names env s ≡ (ok u, s')
      → IsInstalled H names s s'
  unfolding install_missing
  install_missing-IsInstalled [] env s s' real e = ap (λ p. p.1) e
  install_missing-IsInstalled (n ∷ names) env s s' real e =
      update_and_install-IsInstalled n names s s' (rw real at e)

collect-packages :
    (ps : List AptPackage) → collect as_package (map apt_package ps) ≡ ok (map (λ p. p.name) ps)
unfolding collect
collect-packages [] = refl
collect-packages (p ∷ ps) = rw (collect, collect-packages ps) refl
