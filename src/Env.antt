-- ===== src/Env.antt =====
-- src/env.rs: the host facts that every part reads, and the set of resources that changed so far.
pub mod Detect
use ansible_playbooks.Common.{String, Bool, true, false, not, List, ◌∷◌, ◌||◌}
use ansible_playbooks.Common.{any, ◌==◌, if◌then◌else◌, str_eq}
use ansible_playbooks.Resource.Ids.{ResourceId}

pub data RunMode : Type 0 where
  apply dry_run : RunMode

-- `run_state` is shared by every holder of the `Env`; here the executor passes the new value on.
pub record Env : Type 0 where
  pub is_container : Bool
  pub run_mode : RunMode
  pub architecture : String
  pub kernel_release : String
  pub ubuntu_codename : String
  pub is_in_virtualbox : Bool
  pub run_state : List ResourceId

unfoldable pub with_run_mode : Env → RunMode → Env
with_run_mode env mode = record env { run_mode = mode }

-- `HashSet::contains`
abbrev pub contains_id : List ResourceId → ResourceId → Bool
contains_id ids id = any (λ j. j == id) ids

-- `HashSet::insert`
unfoldable pub record_changed : Env → ResourceId → Env
record_changed env id = record env {
  run_state = if contains_id env.run_state id then env.run_state else id ∷ env.run_state;
}

unfoldable pub any_changed : Env → List ResourceId → Bool
any_changed env ids = any (λ id. contains_id env.run_state id) ids

abbrev dry : RunMode → Bool
dry apply = false
dry dry_run = true

unfoldable pub is_dry_run : Env → Bool
is_dry_run env = dry env.run_mode

unfoldable pub is_real_machine : Env → Bool
is_real_machine env = not env.is_container

unfoldable pub is_arm : Env → Bool
is_arm env = str_eq env.architecture "armv7l" || str_eq env.architecture "aarch64"

unfoldable pub apt_arch : Env → String
apt_arch env =
    if str_eq env.architecture "armv7l" || str_eq env.architecture "aarch64"
    then "arm64"
    else "amd64"
