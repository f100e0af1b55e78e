-- ===== src/Backends/LineInFile.antt =====
-- src/backends/line_in_file.rs
use Prim.Native.String.{String}
use ansible_playbooks.Common.{◌<>◌, Bool, not, ◌&&◌, str_eq, List, [], ◌∷◌, any, if◌then◌else◌}
use ansible_playbooks.Common.Results.{Action, pure, lift, ◌>>=◌, ◌>>◌}
use ansible_playbooks.Common.Text.{lines, ends_with_newline, is_empty_text}
use ansible_playbooks.Env.{Env, is_dry_run}
use ansible_playbooks.Error.{BackendError}
use ansible_playbooks.Resource.Ids.{ResourceId, Skip, Changed, changed_yes, changed_no}
use ansible_playbooks.Host.{FilePath, Host, sense, foreign_error}
use ansible_playbooks.Backends.Fs.{sibling_temp, write_full, rename_over}

pub record LineInFile : Type 0 where
  pub path : FilePath
  pub regex : String
  pub line : String
  pub deps : List ResourceId
  pub skip_when : Skip

abbrev pub id_hint : LineInFile → String
id_hint l = "line-in-file:" <> l.path

-- `String::pop`
unfoldable pub pop : String → String
pop String.[] = String.[]
pop (String.◌∷◌ c s) = let rest = pop s in if is_empty_text s then String.[] else String.◌∷◌ c rest

module _ (is_match : String → Bool) (line : String) where
  -- `for src_line in current.lines()`, what is pushed on `out`.
  unfoldable pub replace_lines : List String → String
  replace_lines [] = ""
  replace_lines (src_line ∷ more) =
      (if is_match src_line then line else src_line) <> ("\n" <> replace_lines more)

  unfoldable pub append_line : String → String
  append_line current =
      current
      <> ((if not (is_empty_text current) && not (ends_with_newline current) then "\n" else "")
          <> (line <> "\n"))

  unfoldable pub compute_new_content : String → String
  unfolding lines replace_lines append_line ends_with_newline pop
  compute_new_content current =
      let out = replace_lines (lines current) in
      if any is_match (lines current)
      then (if ends_with_newline current then out else pop out)
      else append_line current

module _ (H : Host) where
  unfoldable pub write_lines : LineInFile → String → Action H.State BackendError Changed
  unfolding write_full rename_over
  write_lines l new_content = do
    write_full H "line-in-file" (sibling_temp l.path) (H.as_bytes new_content)
    rename_over H "line-in-file" (sibling_temp l.path) l.path
    pure changed_yes

  unfoldable pub converge_one : LineInFile → Env → Action H.State BackendError Changed
  unfolding write_lines is_dry_run
  converge_one l env = do
    current ← sense "line-in-file" ("read `" <> l.path <> "`") (H.read_to_string l.path)
    pattern' ←
        lift
          (foreign_error "line-in-file" ("compile regex `" <> l.regex <> "`") (H.regex_new l.regex))
    let new_content = compute_new_content (H.is_match pattern') l.line current
    if str_eq new_content current
        then pure changed_no
        else (if is_dry_run env then pure changed_yes else write_lines l new_content)
