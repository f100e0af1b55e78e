-- ===== src/Env/Detect.antt =====
-- The `detect_*` functions of src/env.rs. `arch` is `std::env::consts::ARCH`.
pub mod Found
use ansible_playbooks.Common.{
  ◌≡◌, refl, ◌∙◌, String, ◌<>◌, Bool, true, false, ◌||◌, Option, none, some, List, [], ◌∷◌,
}
use ansible_playbooks.Common.{any, if◌then◌else◌}
use ansible_playbooks.Common.Results.{Result, ok, err, Action}
use ansible_playbooks.Common.Text.{contains, strip_prefix, trim, trim_matches, lines, is_empty_text}
use ansible_playbooks.Env.{Env, apply}
use ansible_playbooks.Error.{Cause, Error, env_detect}
use ansible_playbooks.Host.{Host, FilePath, IoError, Output, command}

-- `"` and `'`
abbrev trim_quotes : String → String
trim_quotes s = trim_matches 39 (trim_matches 34 s)

-- What the loop over the lines does with one of them.
unfoldable pub value_of : (key line : String) → Option String
value_of key line = elim (strip_prefix key line) [
  | none ↦ none
  | some rest ↦ elim (strip_prefix "=" rest) [
    | none ↦ none
    | some val ↦
        let trimmed = trim_quotes (trim val) in if is_empty_text trimmed then none else some trimmed
  ]
]

unfoldable pub first_value : String → List String → Option String
first_value key [] = none
first_value key (line ∷ more) = elim (value_of key line) [
  | some val ↦ some val
  | none ↦ first_value key more
]

unfoldable pub first_of_keys : List String → List String → Option String
first_of_keys [] rows = none
first_of_keys (key ∷ keys) rows = elim (first_value key rows) [
  | some val ↦ some val
  | none ↦ first_of_keys keys rows
]

abbrev not_found : Error
not_found =
    env_detect "ubuntu codename"
      ("neither VERSION_CODENAME nor UBUNTU_CODENAME found in " <> "/etc/os-release")

-- `detect_ubuntu_codename`, of what reading /etc/os-release gives.
unfoldable pub codename_of : Result IoError String → Result Error String
codename_of (err e) = err (env_detect "read /etc/os-release" e.cause)
codename_of (ok raw) =
    elim (first_of_keys ("VERSION_CODENAME" ∷ "UBUNTU_CODENAME" ∷ []) (lines raw)) [
      | some name ↦ ok name
      | none ↦ err not_found
    ]

abbrev in_cgroup : Result IoError String → Bool
in_cgroup (err e) = false
in_cgroup (ok cg) = contains cg "/docker/" || (contains cg "/lxc/" || contains cg "kubepods")

unfoldable pub architecture_of : String → Result Cause Output → String
architecture_of arch (err e) = arch
architecture_of arch (ok out) =
    let s = trim out.stdout in if out.success then (if is_empty_text s then arch else s) else arch

unfoldable pub kernel_release_of : Result Cause Output → String
kernel_release_of (err e) = ""
kernel_release_of (ok out) = if out.success then trim out.stdout else ""

unfoldable pub in_virtualbox_of : Result Cause Output → Bool
in_virtualbox_of (err e) = false
in_virtualbox_of (ok out) =
    if out.success then any (λ l. contains l "VirtualBox") (lines out.stdout) else false

module _ (H : Host) (arch : String) where
  abbrev exists : FilePath → H.State → Bool
  exists path s = elim (H.metadata path s) [ ok m ↦ true | err e ↦ false ]

  unfoldable pub detect_container : H.State → Bool
  detect_container s =
      if exists "/.dockerenv" s
      then true
      else (if exists "/run/.containerenv" s
          then true
          else in_cgroup (H.read_to_string "/proc/1/cgroup" s))

  abbrev pub with_codename :
      Bool → String → String → Result Error String → H.State → Result Error Env × H.State
  with_codename is_container architecture kernel_release (err e) s = (err e, s)
  with_codename is_container architecture kernel_release (ok codename) s =
      let (out, s') = H.spawn (command ("lspci" ∷ [])) s in
      (
        ok (record {
          is_container = is_container;
          run_mode = apply;
          architecture = architecture;
          kernel_release = kernel_release;
          ubuntu_codename = codename;
          is_in_virtualbox = in_virtualbox_of out;
          run_state = [];
        }),
        s',
      )

  -- `Env::detect`: the probes in the order of the fields; an error of the codename ends them.
  unfoldable pub detect : Action H.State Error Env
  detect s =
      let (machine, s1) = H.spawn (command ("uname" ∷ "-m" ∷ [])) s in
      let (kernel, s2) = H.spawn (command ("uname" ∷ "-r" ∷ [])) s1 in
      with_codename (detect_container s) (architecture_of arch machine) (kernel_release_of kernel)
        (codename_of (H.read_to_string "/etc/os-release" s2)) s2
