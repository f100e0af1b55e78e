-- ===== src/Backends/Symlink.antt =====
-- src/backends/symlink.rs
use ansible_playbooks.Common.{
  String, ◌<>◌, Bool, true, false, Option, none, some, List, if◌then◌else◌,
}
use ansible_playbooks.Common.Text.Paths.{same_path}
use ansible_playbooks.Common.Results.{Result, ok, err, Action, pure, throw, ◌>>=◌, ◌>>◌}
use ansible_playbooks.Env.{Env, is_dry_run}
use ansible_playbooks.Error.{BackendError, backend_error, backend_error_with_source}
use ansible_playbooks.Resource.Ids.{ResourceId, Skip, Changed, changed_yes, changed_no}
use ansible_playbooks.Host.{FilePath, Host, IoError, attempt, io_error}

pub record Symlink : Type 0 where
  pub path : FilePath
  pub target : FilePath
  pub deps : List ResourceId
  pub skip_when : Skip

abbrev pub id_hint : Symlink → String
id_hint l = "symlink:" <> l.path

unfoldable pub points_to : Option FilePath → FilePath → Bool
unfolding same_path
points_to none target = false
points_to (some current) target = same_path current target

abbrev some_target : Result BackendError FilePath → Result BackendError (Option FilePath)
some_target (ok target) = ok (some target)
some_target (err e) = err e

module _ (H : Host) where
  -- The match of `read_link_target` on the type of what stands at the path.
  unfoldable pub link_sensed :
      FilePath → Result IoError Bool → Action H.State BackendError (Option FilePath)
  link_sensed path (ok true) =
      λ s. (some_target (io_error "symlink" ("read_link `" <> path <> "`") (H.read_link path s)), s)
  link_sensed path (ok false) = throw (
      backend_error "symlink"
        ("`" <> path <> "` exists but is not a symlink — refusing to clobber"))
  link_sensed path (err e) =
      if e.not_found
      then pure none
      else throw (backend_error_with_source "symlink" ("stat `" <> path <> "`") e.cause)

  unfoldable pub read_link_target : FilePath → Action H.State BackendError (Option FilePath)
  unfolding link_sensed
  read_link_target path s = link_sensed path (H.is_symlink path s) s

  -- The second look at the path, and the removal of what is there.
  unfoldable pub remove_present :
      FilePath → Result IoError Bool → Action H.State BackendError (Unit {0})
  remove_present path (ok _) =
      attempt "symlink" ("remove existing path `" <> path <> "`") (H.remove_file path)
  remove_present path (err e) =
      if e.not_found
      then pure tt
      else throw (backend_error_with_source "symlink" ("stat `" <> path <> "`") e.cause)

  unfoldable pub replace_link : Symlink → Action H.State BackendError Changed
  unfolding remove_present
  replace_link l = do
    λ s. remove_present l.path (H.is_symlink l.path s) s
    attempt "symlink" ("create symlink `" <> l.path <> "` -> `" <> l.target <> "`")
        (H.symlink l.target l.path)
    pure changed_yes

  unfoldable pub converge_one : Symlink → Env → Action H.State BackendError Changed
  unfolding read_link_target replace_link is_dry_run
  converge_one l env = do
    current ← read_link_target l.path
    if points_to current l.target
        then pure changed_no
        else (if is_dry_run env then pure changed_yes else replace_link l)
