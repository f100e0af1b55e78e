-- ===== src/Backends/Download.antt =====
-- src/backends/download.rs
use ansible_playbooks.Common.{ℕ, String, ◌<>◌, Bool, false, Option, none, some, List, if◌then◌else◌}
use ansible_playbooks.Common.Results.{Action, pure, throw, lift, ◌>>=◌, ◌>>◌}
use ansible_playbooks.Env.{Env, is_dry_run}
use ansible_playbooks.Error.{BackendError, backend_error}
use ansible_playbooks.Resource.Ids.{ResourceId, Skip, Changed, changed_yes, changed_no}
use ansible_playbooks.Host.{FilePath, Host, attempt_foreign, foreign_error}
use ansible_playbooks.Backends.Fs.{
  sibling_temp, existing, ensure_parent_directory, write_full, rename_over, set_mode,
}

pub record Download : Type 0 where
  pub url : String
  pub path : FilePath
  pub mode : Option ℕ
  pub deps : List ResourceId
  pub skip_when : Skip

abbrev pub id_hint : Download → String
id_hint d = "download:" <> d.path

module _ (H : Host) where
  abbrev pub matches_body : Option H.Bytes → H.Bytes → Bool
  matches_body none body = false
  matches_body (some current) body = H.same_bytes current body

  unfoldable pub fetch : String → Action H.State BackendError H.Bytes
  fetch url = attempt_foreign "download" ("GET `" <> url <> "`") (H.https_get url) >>= λ resp.
      if resp.is_success
      then lift (foreign_error "download" ("read body of `" <> url <> "`") resp.body)
      else throw (backend_error "download" ("GET `" <> url <> "` returned HTTP " <> resp.status))

  unfoldable pub read_existing : FilePath → Action H.State BackendError (Option H.Bytes)
  read_existing path s = (existing "download" ("read `" <> path <> "`") (H.read path s), s)

  unfoldable pub store : Download → H.Bytes → Action H.State BackendError Changed
  unfolding ensure_parent_directory write_full set_mode rename_over
  store d body = do
    ensure_parent_directory H "download" d.path
    write_full H "download" (sibling_temp d.path) body
    set_mode H "download" "chmod" (sibling_temp d.path) d.mode
    rename_over H "download" (sibling_temp d.path) d.path
    pure changed_yes

  unfoldable pub converge_one : Download → Env → Action H.State BackendError Changed
  unfolding fetch read_existing store is_dry_run
  converge_one d env = do
    body ← fetch d.url
    current ← read_existing d.path
    if matches_body current body
        then pure changed_no
        else (if is_dry_run env then pure changed_yes else store d body)
