-- ===== src/Executor/Run/Failures.antt =====
-- The errors that a run of src/executor.rs returns.
use ansible_playbooks.Common.{◌≡◌, ◌<>◌, String, ◌⊎◌, Option, some, List, map, All}
use ansible_playbooks.Common.Results.{err, Action}
use ansible_playbooks.Env.{Env}
use ansible_playbooks.Error.{Error, BackendError, backend_failed, task_panicked}
use ansible_playbooks.Resource.{Trait, Batcher}
use ansible_playbooks.Resource.Ids.{BatchFamily}
use ansible_playbooks.Plan.{Node, Plan}
use ansible_playbooks.Executor.Run.Success.{IsOf}

module _ (F : Error → Type 0) where
  -- The errors of the action are as `F` says.
  abbrev FailsAs : {S A : Type 0} → Action S Error A → Type 0
  FailsAs {S} {A} m = (s : S) (e : Error) → (m s).0 ≡ err e → F e

module _ {S : Type 0} (T : Trait S) (batchers : BatchFamily → Option (Batcher S T.Resource))
    (plan : Plan T.Resource) where
  -- A resource of the plan failed: the error has its hint, and what it returned.
  pub record OneFailed (e : Error) : Type 0 where
    pub node : Node T.Resource
    pub listed : IsOf plan node
    pub env : Env
    pub state : S
    pub source : BackendError
    pub failed : (T.converge_one node.resource env state).0 ≡ err source
    pub reported : e ≡ backend_failed (T.id_hint node.resource) source

  -- The batcher returned the error for resources of the plan.
  pub record BatcherErr (batcher : Batcher S T.Resource) (source : BackendError) : Type 0 where
    pub nodes : List (Node T.Resource)
    pub listed : All (IsOf plan) nodes
    pub env : Env
    pub state : S
    pub returned :
        (batcher.converge_batch (map (λ node. node.resource) nodes) env state).0 ≡ err source

  -- A registered batcher failed, or did not answer for each of its resources.
  pub record BatchFailed (e : Error) : Type 0 where
    pub family : BatchFamily
    pub batcher : Batcher S T.Resource
    pub registered : batchers family ≡ some batcher
    pub source : BackendError
    pub failed : BatcherErr batcher source ⊎ (source.backend ≡ "executor")
    pub reported : e ≡ backend_failed ("batch:" <> batcher.family) source

  -- A task panicked, a resource failed, or a batch did.
  abbrev pub IsRunFailure : Error → Type 0
  IsRunFailure e = ((context : String) × (e ≡ task_panicked context)) ⊎ OneFailed e ⊎ BatchFailed e
