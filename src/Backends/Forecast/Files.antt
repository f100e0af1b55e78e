-- ===== src/Backends/Forecast/Files.antt =====
-- The backends that work on files.
use ansible_playbooks.Common.{
  ℕ, ◌≡◌, ◌&&◌, not, ◌<>◌, str_eq, Bool, true, false, String, Option, arith,
}
use ansible_playbooks.Common.Results.{Result, ok, err, lift}
use ansible_playbooks.Env.{Env, is_dry_run, with_run_mode, dry_run}
use ansible_playbooks.Host.{FilePath, Host, IoError, Metadata, attempt, sense, foreign_error}
use ansible_playbooks.Backends.Fs.{
  result_ok, sibling_temp, is_some, ensure_parent_directory, write_full, rename_over, set_mode,
  set_owner,
}
use ansible_playbooks.Backends.Accounts.{lookup_uid, lookup_gid, lookup_named}
use ansible_playbooks.Backends.File
use ansible_playbooks.Backends.File.{File}
use ansible_playbooks.Backends.Directory
use ansible_playbooks.Backends.Directory.{Directory}
use ansible_playbooks.Backends.Download
use ansible_playbooks.Backends.Download.{Download}
use ansible_playbooks.Backends.AbsentFile
use ansible_playbooks.Backends.AbsentFile.{AbsentFile}
use ansible_playbooks.Backends.LineInFile
use ansible_playbooks.Backends.LineInFile.{LineInFile}
use ansible_playbooks.Backends.Symlink
use ansible_playbooks.Backends.Symlink.{Symlink}
use ansible_playbooks.Backends.Forecast.{
  Forecasts, SaysYes, >>=-Forecasts, >>=-SaysYes, pure-SaysYes, decided,
}

module _ (H : Host) (env : Env) (real : is_dry_run env ≡ false) where
  fix_in_place-SaysYes : (f : File) (uid gid : Option ℕ) → SaysYes (File.fix_in_place H f uid gid)
  unfolding File.fix_in_place
  fix_in_place-SaysYes f uid gid =
      >>=-SaysYes (set_mode H "file" "set permissions on" f.path f.mode) _
        λ _. >>=-SaysYes (set_owner H "file" f.path uid gid) _ λ _. pure-SaysYes

  replace-SaysYes : (f : File) (uid gid : Option ℕ) → SaysYes (File.replace H f uid gid)
  unfolding File.replace
  replace-SaysYes f uid gid =
      let tmp : FilePath = sibling_temp f.path in
      >>=-SaysYes (write_full H "file" tmp (H.as_bytes f.content)) _ λ _.
        >>=-SaysYes (set_mode H "file" "set permissions on" tmp f.mode) _ λ _.
          >>=-SaysYes (set_owner H "file" tmp uid gid) _
            λ _. >>=-SaysYes (rename_over H "file" tmp f.path) _ λ _. pure-SaysYes

  apply_drift-SaysYes :
      (f : File) (uid gid : Option ℕ) (same : Bool) → SaysYes (File.apply_drift H f uid gid same)
  unfolding File.apply_drift
  apply_drift-SaysYes f uid gid true =
      >>=-SaysYes (ensure_parent_directory H "file" f.path) _ λ _. fix_in_place-SaysYes f uid gid
  apply_drift-SaysYes f uid gid false =
      >>=-SaysYes (ensure_parent_directory H "file" f.path) _ λ _. replace-SaysYes f uid gid

  pub file-Forecasts :
      (f : File)
      → Forecasts (File.converge_one H f env) (File.converge_one H f (with_run_mode env dry_run))
  unfolding File.converge_one
  file-Forecasts f = >>=-Forecasts (lookup_named (lookup_uid H "file") f.owner) _ _ λ uid.
      >>=-Forecasts (lookup_named (lookup_gid H "file") f.group) _ _ λ gid.
        >>=-Forecasts (File.read_existing_content H f.path) _ _ λ current s.
          let meta = result_ok (H.metadata f.path s) in
          let same = File.content_matches current f.content in
          decided (same && File.mode_matches f.mode meta && File.ownership_matches meta uid gid) env
            (File.apply_drift H f uid gid same) real (apply_drift-SaysYes f uid gid same) s

  adjust-SaysYes :
      (d : Directory) (create : Bool) (uid gid : Option ℕ)
      → SaysYes (Directory.adjust H d create uid gid)
  unfolding Directory.adjust
  adjust-SaysYes d create uid gid = >>=-SaysYes (Directory.create_if H create d.path) _ λ _.
      >>=-SaysYes (set_mode H "directory" "chmod" d.path d.mode) _
        λ _. >>=-SaysYes (set_owner H "directory" d.path uid gid) _ λ _. pure-SaysYes

  pub directory-Forecasts :
      (d : Directory)
      → Forecasts
          (Directory.converge_one H d env)
          (Directory.converge_one H d (with_run_mode env dry_run))
  unfolding Directory.converge_one
  directory-Forecasts d = >>=-Forecasts (lookup_named (lookup_uid H "directory") d.owner) _ _ λ uid.
      >>=-Forecasts (lookup_named (lookup_gid H "directory") d.group) _ _ λ gid.
        >>=-Forecasts (Directory.read_metadata H d.path) _ _ λ current.
          decided
            (not (not (is_some current))
              && not (Directory.needs_mode_fix d.mode current)
              && not (Directory.needs_chown current uid gid))
            env (Directory.adjust H d (not (is_some current)) uid gid) real
            (adjust-SaysYes d (not (is_some current)) uid gid)

  replace_link-SaysYes : (l : Symlink) → SaysYes (Symlink.replace_link H l)
  unfolding Symlink.replace_link
  replace_link-SaysYes l =
      >>=-SaysYes (λ s. Symlink.remove_present H l.path (H.is_symlink l.path s) s) _
        λ _.
          >>=-SaysYes
            (attempt "symlink" ("create symlink `" <> l.path <> "` -> `" <> l.target <> "`")
              (H.symlink l.target l.path))
            _ λ _. pure-SaysYes

  pub symlink-Forecasts :
      (l : Symlink)
      → Forecasts
          (Symlink.converge_one H l env)
          (Symlink.converge_one H l (with_run_mode env dry_run))
  unfolding Symlink.converge_one
  symlink-Forecasts l = >>=-Forecasts (Symlink.read_link_target H l.path) _ _ λ current.
      decided (Symlink.points_to current l.target) env (Symlink.replace_link H l) real
        (replace_link-SaysYes l)

  store-SaysYes : (d : Download) (body : H.Bytes) → SaysYes (Download.store H d body)
  unfolding Download.store
  store-SaysYes d body =
      let tmp : FilePath = sibling_temp d.path in
      >>=-SaysYes (ensure_parent_directory H "download" d.path) _ λ _.
        >>=-SaysYes (write_full H "download" tmp body) _ λ _.
          >>=-SaysYes (set_mode H "download" "chmod" tmp d.mode) _
            λ _. >>=-SaysYes (rename_over H "download" tmp d.path) _ λ _. pure-SaysYes

  pub download-Forecasts :
      (d : Download)
      → Forecasts
          (Download.converge_one H d env)
          (Download.converge_one H d (with_run_mode env dry_run))
  unfolding Download.converge_one
  download-Forecasts d = >>=-Forecasts (Download.fetch H d.url) _ _ λ body.
      >>=-Forecasts (Download.read_existing H d.path) _ _ λ current.
        decided (Download.matches_body H current body) env (Download.store H d body) real
          (store-SaysYes d body)

  write_lines-SaysYes : (l : LineInFile) (text : String) → SaysYes (LineInFile.write_lines H l text)
  unfolding LineInFile.write_lines
  write_lines-SaysYes l text =
      let tmp : FilePath = sibling_temp l.path in
      >>=-SaysYes (write_full H "line-in-file" tmp (H.as_bytes text)) _
        λ _. >>=-SaysYes (rename_over H "line-in-file" tmp l.path) _ λ _. pure-SaysYes

  pub line_in_file-Forecasts :
      (l : LineInFile)
      → Forecasts
          (LineInFile.converge_one H l env)
          (LineInFile.converge_one H l (with_run_mode env dry_run))
  unfolding LineInFile.converge_one
  line_in_file-Forecasts l =
      >>=-Forecasts (sense "line-in-file" ("read `" <> l.path <> "`") (H.read_to_string l.path)) _ _
        λ current.
          >>=-Forecasts
            (lift (
              foreign_error "line-in-file" ("compile regex `" <> l.regex <> "`")
                (H.regex_new l.regex)))
            _ _
            λ pattern'.
              let text = LineInFile.compute_new_content (H.is_match pattern') l.line current in
              decided (str_eq text current) env (LineInFile.write_lines H l text) real
                (write_lines-SaysYes l text)

  remove_sensed-Forecasts :
      (f : AbsentFile) (r : Result IoError Metadata)
      → Forecasts
          (AbsentFile.remove_sensed H f env r)
          (AbsentFile.remove_sensed H f (with_run_mode env dry_run) r)
  unfolding AbsentFile.remove_sensed is_dry_run with_run_mode
  remove_sensed-Forecasts f (err e) s c same = same
  remove_sensed-Forecasts f (ok meta) s c same = ground arith

  pub absent_file-Forecasts :
      (f : AbsentFile)
      → Forecasts
          (AbsentFile.converge_one H f env)
          (AbsentFile.converge_one H f (with_run_mode env dry_run))
  unfolding AbsentFile.converge_one
  absent_file-Forecasts f s = remove_sensed-Forecasts f (H.metadata f.path s) s
