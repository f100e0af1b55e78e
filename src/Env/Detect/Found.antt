-- ===== src/Env/Detect/Found.antt =====
-- What `Env::detect` of src/env.rs finds, and what it leaves alone.
use ansible_playbooks.Common.{
  ◌≡◌, refl, ◌∙◌, String, Bool, false, inl, inr, Option, none, some, List, [], ◌∷◌, arith,
  Option-cases, Bool-cases, if◌then◌else◌,
}
use ansible_playbooks.Common.Results.{Result, ok, err}
use ansible_playbooks.Common.Text.{is_empty_text, lines, strip_prefix}
use ansible_playbooks.Env.{Env, is_dry_run}
use ansible_playbooks.Env.Detect.{
  value_of, first_value, first_of_keys, codename_of, detect_container, with_codename, detect,
}
use ansible_playbooks.Error.{Error}
use ansible_playbooks.Host.{Host, IoError, command}

-- The child processes that look at the machine change nothing: what their manuals say of them.
pub record IsQuietProbe (H : Host) : Type 0 where
  pub uname : (arg : String) (s : H.State) → (H.spawn (command ("uname" ∷ arg ∷ [])) s).1 ≡ s
  pub lspci : (s : H.State) → (H.spawn (command ("lspci" ∷ [])) s).1 ≡ s

with_codename-Keeps :
    (H : Host) (arch : String) (is_container : Bool) (architecture kernel_release : String)
    (codename : Result Error String) (s : H.State)
    → IsQuietProbe H
    → (with_codename H arch is_container architecture kernel_release codename s).1 ≡ s
with_codename-Keeps H arch is_container architecture kernel_release (ok codename) s quiet =
    quiet.lspci s
with_codename-Keeps H arch is_container architecture kernel_release (err e) s quiet = refl

pub detect-Keeps :
    (H : Host) (arch : String) (s : H.State) → IsQuietProbe H → (detect H arch s).1 ≡ s
unfolding detect
detect-Keeps H arch s quiet =
    let s1 = (H.spawn (command ("uname" ∷ "-m" ∷ [])) s).1 in
    let s2 = (H.spawn (command ("uname" ∷ "-r" ∷ [])) s1).1 in
    with_codename-Keeps H arch (detect_container H arch s) _ _
      (codename_of (H.read_to_string "/etc/os-release" s2)) s2 quiet
    ∙ quiet.uname "-r" s1
    ∙ quiet.uname "-m" s

IsNamed : Option String → Type 0
IsNamed none = Unit {0}
IsNamed (some name) = is_empty_text name ≡ false

kept-IsNamed : (name : String) → IsNamed (if is_empty_text name then none else some name)
unfolding IsNamed
kept-IsNamed name = elim (Bool-cases (is_empty_text name)) [
  | inl empty ↦ rw empty tt
  | inr full ↦ rw full full
]

value_of-IsNamed : (key line : String) → IsNamed (value_of key line)
unfolding IsNamed value_of
value_of-IsNamed key line = elim (Option-cases (strip_prefix key line)) [
  | inl other ↦ rw (other, value_of) tt
  | inr (rest, e) ↦ elim (Option-cases (strip_prefix "=" rest)) [
    | inl other ↦ rw (e, other, value_of) tt
    | inr (val, e') ↦ rw (e, e', value_of) (kept-IsNamed _)
  ]
]

first_value-IsNamed : (key : String) (rows : List String) → IsNamed (first_value key rows)
unfolding IsNamed first_value
first_value-IsNamed key [] = tt
first_value-IsNamed key (line ∷ more) = elim (Option-cases (value_of key line)) [
  | inl other ↦ rw (other, first_value) (first_value-IsNamed key more)
  | inr (name, e) ↦ rw (e, first_value) (rw e at (value_of-IsNamed key line))
]

first_of_keys-IsNamed : (keys rows : List String) → IsNamed (first_of_keys keys rows)
unfolding IsNamed first_of_keys
first_of_keys-IsNamed [] rows = tt
first_of_keys-IsNamed (key ∷ keys) rows = elim (Option-cases (first_value key rows)) [
  | inl other ↦ rw (other, first_of_keys) (first_of_keys-IsNamed keys rows)
  | inr (name, e) ↦ rw (e, first_of_keys) (rw e at (first_value-IsNamed key rows))
]

codename_of-named :
    (read : Result IoError String) (name : String)
    → codename_of read ≡ ok name
    → is_empty_text name ≡ false
unfolding codename_of IsNamed
codename_of-named (err e) name named = cc
codename_of-named (ok raw) name named =
    let keys : List String = "VERSION_CODENAME" ∷ "UBUNTU_CODENAME" ∷ [] in
    elim (Option-cases (first_of_keys keys (lines raw))) [
      | inl missing ↦ absurd (ground (arith, missing))
      | inr (found, e) ↦
          let same : found ≡ name = ground (arith, e) in
          rw (← same) (rw e at (first_of_keys-IsNamed keys (lines raw)))
    ]

-- What an `Env` is when it has just been detected.
pub record IsFresh (env : Env) : Type 0 where
  pub named : is_empty_text env.ubuntu_codename ≡ false
  pub unchanged : env.run_state ≡ []
  pub applies : is_dry_run env ≡ false

with_codename-IsFresh :
    (H : Host) (arch : String) (is_container : Bool) (architecture kernel_release : String)
    (codename : Result Error String) (s : H.State) (env : Env)
    → ((name : String) → codename ≡ ok name → is_empty_text name ≡ false)
    → (with_codename H arch is_container architecture kernel_release codename s).0 ≡ ok env
    → IsFresh env
unfolding is_dry_run
with_codename-IsFresh H arch is_container architecture kernel_release (err e) s env h detected = cc
with_codename-IsFresh H arch is_container architecture kernel_release (ok name) s env h detected =
    record { named = ground (arith, h name refl); unchanged = ground arith; applies = ground arith }

-- An `Env` that is detected has a codename that is not empty, has recorded no change, and is to
-- apply changes.
pub detect-IsFresh :
    (H : Host) (arch : String) (s : H.State) (env : Env)
    → (detect H arch s).0 ≡ ok env
    → IsFresh env
unfolding detect
detect-IsFresh H arch s env detected =
    with_codename-IsFresh H arch _ _ _ _ _ env (codename_of-named _) detected
