-- ===== src/Backends/Fs.antt =====
-- The file helpers that src/backends/file.rs, download.rs and line_in_file.rs each define, over the
-- name of the backend that reports the error.
use ansible_playbooks.Common.{
  ℕ, ◌%◌, ◌^◌, String, ◌<>◌, Bool, true, false, Option, none, some, if◌then◌else◌,
}
use ansible_playbooks.Common.Results.{Result, ok, err, Action, pure, ◌>>◌}
use ansible_playbooks.Common.Text.{is_empty_text}
use ansible_playbooks.Error.{BackendError}
use ansible_playbooks.Host.{FilePath, IoError, Host, attempt, io_error}

abbrev pub sibling_temp : FilePath → FilePath
sibling_temp path = path <> ".tmp.host-setup"

-- `mode & 0o7777`
abbrev pub permission_bits : ℕ → ℕ
permission_bits mode = mode % 2 ^ 12

abbrev pub is_some : {A : Type 0} → Option A → Bool
is_some none = false
is_some (some a) = true

-- `Err(e) if e.kind() == NotFound => Ok(None)`
abbrev pub existing :
    {A : Type 0} → String → String → Result IoError A → Result BackendError (Option A)
existing backend message (ok a) = ok (some a)
existing backend message (err e) = if e.not_found then ok none else io_error backend message (err e)

-- `Result::ok`
abbrev pub result_ok : {E A : Type 0} → Result E A → Option A
result_ok (ok a) = some a
result_ok (err e) = none

module _ (H : Host) (backend : String) where
  abbrev pub BackendAction : Type 0 → Type 0
  BackendAction A = Action H.State BackendError A

  abbrev create_parent : Option FilePath → BackendAction (Unit {0})
  create_parent none = pure tt
  create_parent (some dir) =
      if is_empty_text dir
      then pure tt
      else attempt backend ("create directory `" <> dir <> "`") (H.create_dir_all dir)

  unfoldable pub ensure_parent_directory : FilePath → BackendAction (Unit {0})
  ensure_parent_directory path = create_parent (H.parent path)

  unfoldable pub write_full : FilePath → H.Bytes → BackendAction (Unit {0})
  write_full path bytes = do
    attempt backend ("create `" <> path <> "`") (H.create path)
    attempt backend ("write `" <> path <> "`") (H.write_all path bytes)
    attempt backend ("flush `" <> path <> "`") (H.flush path)

  unfoldable pub rename_over : FilePath → FilePath → BackendAction (Unit {0})
  rename_over tmp path =
      attempt backend ("rename `" <> tmp <> "` -> `" <> path <> "`") (H.rename tmp path)

  -- `if let Some(mode) = self.mode.clone()`
  unfoldable pub set_mode : (what : String) → FilePath → Option ℕ → BackendAction (Unit {0})
  set_mode what path none = pure tt
  set_mode what path (some mode) =
      attempt backend (what <> " `" <> path <> "`") (H.set_permissions path mode)

  -- `if want_uid.is_some() || want_gid.is_some()`
  unfoldable pub set_owner : FilePath → Option ℕ → Option ℕ → BackendAction (Unit {0})
  set_owner path none none = pure tt
  set_owner path (some uid) gid =
      attempt backend ("chown `" <> path <> "`") (H.chown path (some uid) gid)
  set_owner path none (some gid) =
      attempt backend ("chown `" <> path <> "`") (H.chown path none (some gid))
