-- ===== src/Backends/AbsentAptPackage.antt =====
-- src/backends/absent_apt_package.rs: packages one at a time.
use ansible_playbooks.Common.{String, ◌<>◌, List, [], ◌∷◌, if◌then◌else◌}
use ansible_playbooks.Common.Results.{Action, pure, ◌>>=◌, ◌>>◌}
use ansible_playbooks.Env.{Env, is_dry_run}
use ansible_playbooks.Error.{BackendError}
use ansible_playbooks.Resource.Ids.{ResourceId, Skip, Changed, changed_yes, changed_no}
use ansible_playbooks.Host.{Host}
use ansible_playbooks.Backends.User.{contains_name}
use ansible_playbooks.Backends.AptPackage.{read_installed_packages, run_apt_remove}

pub record AbsentAptPackage : Type 0 where
  pub name : String
  pub deps : List ResourceId
  pub skip_when : Skip

abbrev pub id_hint : AbsentAptPackage → String
id_hint p = "absent-apt-package:" <> p.name

unfoldable pub converge_one :
    (H : Host) → AbsentAptPackage → Env → Action H.State BackendError Changed
unfolding read_installed_packages run_apt_remove is_dry_run
converge_one H p env = do
  installed ← read_installed_packages H
  if contains_name installed p.name
      then (if is_dry_run env
          then pure changed_yes
          else (run_apt_remove H (p.name ∷ []) >> pure changed_yes))
      else pure changed_no
