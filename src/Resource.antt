-- ===== src/Resource.antt =====
-- src/resource.rs and src/batcher.rs: when a resource is skipped, and the traits `Resource` and
-- `Batcher` as records of functions. The executor takes them as parameters; Backends fills them.
pub mod Ids
use ansible_playbooks.Common.{ℕ, String, Bool, false, Option, List, ◌≡◌, length}
use ansible_playbooks.Common.Results.{Action, Result, ok}
use ansible_playbooks.Env.{Env}
use ansible_playbooks.Error.{BackendError, Cause}
use Ids.{ResourceId, Changed, BatchFamily, Skip, never, in_container}

unfoldable pub evaluate : Skip → Env → Bool
evaluate never env = false
evaluate in_container env = env.is_container

-- `dyn Resource` over hosts in state `S`.
pub record Trait (S : Type 0) : Type 1 where
  pub Resource : Type 0
  pub id_hint : Resource → String
  pub deps : Resource → List ResourceId
  pub skip_when : Resource → Skip
  pub batch_family : Resource → Option BatchFamily
  pub converge_one : Resource → Env → Action S BackendError Changed
  -- What `join_next` reports, in the state that a task leaves, if the task panicked.
  pub join_error : S → Option Cause

-- `dyn Batcher`
pub record Batcher (S Resource : Type 0) : Type 0 where
  pub family : String
  pub converge_batch : List Resource → Env → Action S BackendError (List Changed)

-- A batch that succeeds answers for each of its resources.
abbrev pub AnswersAll : {S Resource : Type 0} → Batcher S Resource → Type 0
AnswersAll {S} {Resource} b =
    (rs : List Resource) (env : Env) (s : S) (changes : List Changed)
    → (b.converge_batch rs env s).0 ≡ ok changes
    → length changes ≡ length rs
