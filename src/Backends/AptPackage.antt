-- ===== src/Backends/AptPackage.antt =====
-- src/backends/apt_package.rs: the calls of dpkg and apt-get, and packages one at a time.
pub mod Listing
pub mod Manager
use ansible_playbooks.Common.{String, ◌<>◌, Option, none, some, List, [], ◌∷◌, if◌then◌else◌}
use text.Mathlib.Text.{starts_with}
use ansible_playbooks.Common.Results.{Action, pure, throw, ◌>>=◌, ◌>>◌}
use ansible_playbooks.Common.Text.{lines, split_by, split_on}
use ansible_playbooks.Env.{Env, is_dry_run}
use ansible_playbooks.Error.{BackendError, backend_error}
use ansible_playbooks.Resource.Ids.{ResourceId, Skip, Changed, changed_yes, changed_no}
use ansible_playbooks.Host.{Host, Spawn, command, attempt_foreign}
use ansible_playbooks.Backends.User.{contains_name}

pub record AptPackage : Type 0 where
  pub name : String
  pub deps : List ResourceId
  pub skip_when : Skip

abbrev pub id_hint : AptPackage → String
id_hint p = "apt-package:" <> p.name

-- The name on a line of `dpkg-query`, if its status begins with `ii`.
unfoldable pub installed_name : List String → Option String
installed_name (name ∷ status ∷ more) = if starts_with status "ii" then some name else none
installed_name _ = none

unfoldable pub installed_names : List String → List String
unfolding installed_name split_by
installed_names [] = []
installed_names (line ∷ more) =
    let rest = installed_names more in
    elim (installed_name (split_on 9 line)) [ none ↦ rest | some name ↦ name ∷ rest ]

abbrev pub apt_get : List String → Spawn
apt_get args = record { vars = ("DEBIAN_FRONTEND", "noninteractive") ∷ []; argv = "apt-get" ∷ args }

module _ (H : Host) where
  unfoldable pub read_installed_packages : Action H.State BackendError (List String)
  unfolding installed_names lines
  read_installed_packages =
      attempt_foreign "apt-package" "spawn dpkg-query to read apt state"
        (H.spawn (command ("dpkg-query" ∷ "-W" ∷ "-f=${Package}\t${db:Status-Abbrev}\n" ∷ [])))
      >>= λ output.
          if output.success
          then pure (installed_names (lines output.stdout))
          else throw (
              backend_error "apt-package"
                ("dpkg-query exited with " <> output.code <> "; stderr:\n" <> output.stderr))

  -- `apt-get` has to succeed.
  abbrev pub run_apt_get : (verb : String) → List String → Action H.State BackendError (Unit {0})
  run_apt_get verb args =
      attempt_foreign "apt-package" ("spawn apt-get " <> verb) (H.spawn (apt_get (verb ∷ args)))
      >>= λ output.
          if output.success
          then pure tt
          else throw (
              backend_error "apt-package"
                ("apt-get " <> verb <> " failed; stderr:\n" <> output.stderr))

  unfoldable pub run_apt_update : Action H.State BackendError (Unit {0})
  run_apt_update = run_apt_get "update" []

  unfoldable pub run_apt_install : List String → Action H.State BackendError (Unit {0})
  run_apt_install [] = pure tt
  run_apt_install (name ∷ names) = run_apt_get "install" ("-y" ∷ name ∷ names)

  unfoldable pub run_apt_remove : List String → Action H.State BackendError (Unit {0})
  run_apt_remove [] = pure tt
  run_apt_remove (name ∷ names) = run_apt_get "remove" ("-y" ∷ "--purge" ∷ name ∷ names)

  unfoldable pub converge_one : AptPackage → Env → Action H.State BackendError Changed
  unfolding read_installed_packages run_apt_update run_apt_install is_dry_run
  converge_one p env = do
    installed ← read_installed_packages
    if contains_name installed p.name
        then pure changed_no
        else (if is_dry_run env
            then pure changed_yes
            else (run_apt_update >> run_apt_install (p.name ∷ []) >> pure changed_yes))
