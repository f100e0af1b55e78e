-- ===== src/Backends/File.antt =====
-- src/backends/file.rs
pub mod Written
pub mod Converge
use ansible_playbooks.Common.{
  ℕ, String, ◌<>◌, Bool, true, false, ◌==◌, ◌&&◌, ◌||◌, not, str_eq, Option, none, some, List,
  if◌then◌else◌,
}
use ansible_playbooks.Common.Results.{Result, Action, pure, ◌>>=◌, ◌>>◌}
use ansible_playbooks.Env.{Env, is_dry_run}
use ansible_playbooks.Error.{BackendError}
use ansible_playbooks.Resource.Ids.{ResourceId, Skip, Changed, changed_yes, changed_no}
use ansible_playbooks.Host.{FilePath, Metadata, Host}
use ansible_playbooks.Backends.Fs.{
  sibling_temp, permission_bits, is_some, existing, result_ok, ensure_parent_directory, write_full,
  rename_over, set_mode, set_owner,
}
use ansible_playbooks.Backends.Accounts.{lookup_uid, lookup_gid, lookup_named}

pub record File : Type 0 where
  pub path : FilePath
  pub content : String
  pub mode : Option ℕ
  pub owner : Option String
  pub group : Option String
  pub deps : List ResourceId
  pub skip_when : Skip

abbrev pub id_hint : File → String
id_hint f = "file:" <> f.path

abbrev pub content_matches : Option String → String → Bool
content_matches none content = false
content_matches (some current) content = str_eq current content

abbrev pub mode_matches : Option ℕ → Option Metadata → Bool
mode_matches none meta = true
mode_matches (some want) none = false
mode_matches (some want) (some m) = permission_bits m.mode == permission_bits want

-- `want.is_none_or(|w| actual == w)`
abbrev pub none_or_eq : Option ℕ → ℕ → Bool
none_or_eq none actual = true
none_or_eq (some want) actual = actual == want

abbrev pub ownership_matches : Option Metadata → Option ℕ → Option ℕ → Bool
ownership_matches none uid gid = not (is_some uid) && not (is_some gid)
ownership_matches (some m) uid gid = none_or_eq uid m.uid && none_or_eq gid m.gid

module _ (H : Host) where
  unfoldable pub read_existing_content : FilePath → Action H.State BackendError (Option String)
  read_existing_content path s =
      (existing "file" ("read `" <> path <> "`") (H.read_to_string path s), s)

  -- `fs::metadata(&self.path).await.ok()`
  abbrev pub metadata_ok : FilePath → Action H.State BackendError (Option Metadata)
  metadata_ok path s = (Result.ok (result_ok (H.metadata path s)), s)

  unfoldable pub fix_in_place : File → Option ℕ → Option ℕ → Action H.State BackendError Changed
  unfolding set_mode set_owner
  fix_in_place f uid gid = do
    set_mode H "file" "set permissions on" f.path f.mode
    set_owner H "file" f.path uid gid
    pure changed_yes

  unfoldable pub replace : File → Option ℕ → Option ℕ → Action H.State BackendError Changed
  unfolding write_full set_mode set_owner rename_over
  replace f uid gid = do
    write_full H "file" (sibling_temp f.path) (H.as_bytes f.content)
    set_mode H "file" "set permissions on" (sibling_temp f.path) f.mode
    set_owner H "file" (sibling_temp f.path) uid gid
    rename_over H "file" (sibling_temp f.path) f.path
    pure changed_yes

  -- What is done about a drift, in a run that writes.
  unfoldable pub apply_drift :
      File → Option ℕ → Option ℕ → (same_content : Bool) → Action H.State BackendError Changed
  unfolding ensure_parent_directory fix_in_place replace
  apply_drift f uid gid same_content =
      ensure_parent_directory H "file" f.path
      >> (if same_content then fix_in_place f uid gid else replace f uid gid)

  unfoldable pub converge_one : File → Env → Action H.State BackendError Changed
  unfolding read_existing_content
  converge_one f env = do
    uid ← lookup_named (lookup_uid H "file") f.owner
    gid ← lookup_named (lookup_gid H "file") f.group
    current ← read_existing_content f.path
    meta ← metadata_ok f.path
    let same_content = content_matches current f.content
    if same_content && mode_matches f.mode meta && ownership_matches meta uid gid
        then pure changed_no
        else (if is_dry_run env then pure changed_yes else apply_drift f uid gid same_content)
