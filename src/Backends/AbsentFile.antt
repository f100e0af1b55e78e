-- ===== src/Backends/AbsentFile.antt =====
-- src/backends/absent_file.rs
use ansible_playbooks.Common.{String, ◌<>◌, List, if◌then◌else◌}
use ansible_playbooks.Common.Results.{Result, ok, err, Action, pure, throw, ◌>>◌}
use ansible_playbooks.Env.{Env, is_dry_run}
use ansible_playbooks.Error.{BackendError, backend_error_with_source}
use ansible_playbooks.Resource.Ids.{ResourceId, Skip, Changed, changed_yes, changed_no}
use ansible_playbooks.Host.{FilePath, Host, IoError, Metadata, attempt}

pub record AbsentFile : Type 0 where
  pub path : FilePath
  pub deps : List ResourceId
  pub skip_when : Skip

abbrev pub id_hint : AbsentFile → String
id_hint f = "absent-file:" <> f.path

module _ (H : Host) where
  unfoldable pub remove_sensed :
      AbsentFile → Env → Result IoError Metadata → Action H.State BackendError Changed
  unfolding is_dry_run
  remove_sensed f env (err e) =
      if e.not_found
      then pure changed_no
      else throw (backend_error_with_source "absent-file" ("stat `" <> f.path <> "`") e.cause)
  remove_sensed f env (ok meta) =
      if is_dry_run env
      then pure changed_yes
      else (attempt "absent-file" ("remove `" <> f.path <> "`") (H.remove_file f.path)
          >> pure changed_yes)

  unfoldable pub converge_one : AbsentFile → Env → Action H.State BackendError Changed
  unfolding remove_sensed
  converge_one f env s = remove_sensed f env (H.metadata f.path s) s
