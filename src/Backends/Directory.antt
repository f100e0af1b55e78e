-- ===== src/Backends/Directory.antt =====
-- src/backends/directory.rs
use ansible_playbooks.Common.{
  ℕ, String, ◌<>◌, Bool, true, false, ◌==◌, ◌&&◌, ◌||◌, not, Option, none, some, List,
  if◌then◌else◌,
}
use ansible_playbooks.Common.Results.{Result, ok, err, Action, pure, ◌>>=◌, ◌>>◌}
use ansible_playbooks.Env.{Env, is_dry_run}
use ansible_playbooks.Error.{BackendError, backend_error, backend_error_with_source}
use ansible_playbooks.Resource.Ids.{ResourceId, Skip, Changed, changed_yes, changed_no}
use ansible_playbooks.Host.{FilePath, Metadata, IoError, Host, attempt}
use ansible_playbooks.Backends.Fs.{permission_bits, is_some, set_mode, set_owner}
use ansible_playbooks.Backends.Accounts.{lookup_uid, lookup_gid, lookup_named}

pub record Directory : Type 0 where
  pub path : FilePath
  pub mode : Option ℕ
  pub owner : Option String
  pub group : Option String
  pub deps : List ResourceId
  pub skip_when : Skip

abbrev pub id_hint : Directory → String
id_hint d = "directory:" <> d.path

abbrev pub needs_mode_fix : Option ℕ → Option Metadata → Bool
needs_mode_fix (some want) (some meta) = not (permission_bits meta.mode == permission_bits want)
needs_mode_fix _ _ = false

-- `want.is_some_and(|w| actual != w)`
abbrev pub some_and_ne : Option ℕ → ℕ → Bool
some_and_ne none actual = false
some_and_ne (some want) actual = not (actual == want)

abbrev pub needs_chown : Option Metadata → Option ℕ → Option ℕ → Bool
needs_chown none uid gid = is_some uid || is_some gid
needs_chown (some meta) uid gid = some_and_ne uid meta.uid || some_and_ne gid meta.gid

-- `read_metadata`: what the answer of `fs::metadata` is taken for.
unfoldable pub directory_metadata :
    FilePath → Result IoError Metadata → Result BackendError (Option Metadata)
directory_metadata path (ok meta) =
    if meta.is_dir
    then ok (some meta)
    else err (backend_error "directory" ("`" <> path <> "` exists but is not a directory"))
directory_metadata path (err e) =
    if e.not_found
    then ok none
    else err (backend_error_with_source "directory" ("stat `" <> path <> "`") e.cause)

module _ (H : Host) where
  unfoldable pub read_metadata : FilePath → Action H.State BackendError (Option Metadata)
  unfolding directory_metadata
  read_metadata path s = (directory_metadata path (H.metadata path s), s)

  abbrev pub create_if : Bool → FilePath → Action H.State BackendError (Unit {0})
  create_if false path = pure tt
  create_if true path = attempt "directory" ("mkdir `" <> path <> "`") (H.create_dir_all path)

  unfoldable pub adjust :
      Directory → (needs_create : Bool) → Option ℕ → Option ℕ → Action H.State BackendError Changed
  unfolding set_mode set_owner
  adjust d needs_create uid gid = do
    create_if needs_create d.path
    set_mode H "directory" "chmod" d.path d.mode
    set_owner H "directory" d.path uid gid
    pure changed_yes

  unfoldable pub converge_one : Directory → Env → Action H.State BackendError Changed
  unfolding lookup_named lookup_uid lookup_gid read_metadata adjust is_dry_run
  converge_one d env = do
    uid ← lookup_named (lookup_uid H "directory") d.owner
    gid ← lookup_named (lookup_gid H "directory") d.group
    current ← read_metadata d.path
    let needs_create = not (is_some current)
    if not needs_create && not (needs_mode_fix d.mode current) && not (needs_chown current uid gid)
        then pure changed_no
        else (if is_dry_run env then pure changed_yes else adjust d needs_create uid gid)
