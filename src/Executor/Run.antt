-- ===== src/Executor/Run.antt =====
-- `Executor::run`, `run_level`, `run_batched` and `run_one` in src/executor.rs.
-- A level's tasks run one after another, in an order that the schedule chooses: the tasks are
-- independent of each other in the source, and neither the iteration order of the `HashMap` nor
-- the order in which tasks finish is fixed there. The first error ends the run, as `?` does.
pub mod Joins
pub mod Members
pub mod Ids
pub mod Order
pub mod Notify
pub mod Registered
pub mod DryRun
pub mod Success
pub mod Failures
pub mod Quiet
use ansible_playbooks.Common.{
  ℕ, zero, suc, ◌+◌, String, ◌<>◌, Bool, true, false, Option, none, some, List, [], ◌∷◌, ◌++◌, map,
}
use ansible_playbooks.Common.{length, get_elem?, ◌==◌, if◌then◌else◌}
use ansible_playbooks.Common.Results.{Result, ok, err, Action, pure, throw, lift, and_then, ◌>>=◌}
use ansible_playbooks.Env.{Env, record_changed}
use ansible_playbooks.Error.{
  Cause, task_panicked, BackendError, backend_error, Error, backend_failed,
}
use ansible_playbooks.Resource.{Trait, Batcher, evaluate}
use ansible_playbooks.Resource.Ids.{
  ResourceId, Changed, changed_yes, changed_no, changed_skipped, BatchFamily, apt_package,
  absent_apt_package, apt_repo, systemctl_enable, sysctl, kernel_module,
}
use ansible_playbooks.Plan.{Node, Plan}
use ansible_playbooks.Executor.Report.{ResourceOutcome, Report, same_changed}
use ansible_playbooks.Executor.Topo.{compute_topo_levels}

-- Any order of a list: each element goes to the place that is picked for it, among the later ones.
abbrev pub insert_at {ℓ} : {A : Type ℓ} → ℕ → A → List A → List A
insert_at zero a xs = a ∷ xs
insert_at (suc p) a [] = a ∷ []
insert_at (suc p) a (x ∷ xs) = x ∷ insert_at p a xs

abbrev pub permute {ℓ} : {A : Type ℓ} → (ℕ → ℕ) → List A → List A
permute picks [] = []
permute picks (x ∷ xs) = insert_at (picks 0) x (permute (λ k. picks (suc k)) xs)

-- `map_err`, and a result that the code wraps in another error.
abbrev pub map_err :
    {S A : Type 0} → (BackendError → Error) → Action S BackendError A → Action S Error A
map_err f m s = let (r, s') = m s in (elim r [ ok a ↦ ok a | err e ↦ err (f e) ], s')

abbrev family_index : BatchFamily → ℕ
family_index apt_package = 0
family_index absent_apt_package = 1
family_index apt_repo = 2
family_index systemctl_enable = 3
family_index sysctl = 4
family_index kernel_module = 5

-- `==` on the keys of `by_family`.
abbrev pub same_family : Option BatchFamily → Option BatchFamily → Bool
same_family none none = true
same_family none (some g) = false
same_family (some f) none = false
same_family (some f) (some g) = family_index f == family_index g

module _ {S : Type 0} (T : Trait S) (batchers : BatchFamily → Option (Batcher S T.Resource)) where
  -- `HashMap<Option<BatchFamily>, Vec<usize>>`, by the nodes themselves.
  abbrev pub Groups : Type 0
  Groups = List (Option BatchFamily × List (Node T.Resource))

  -- `by_family.entry(family).or_default().push(i)`
  unfoldable pub push_group : Option BatchFamily → Node T.Resource → Groups → Groups
  push_group family node [] = (family, node ∷ []) ∷ []
  push_group family node ((key, members) ∷ groups) =
      if same_family key family
      then (key, members ++ (node ∷ [])) ∷ groups
      else (key, members) ∷ push_group family node groups

  abbrev pub outcome : Node T.Resource → Changed → ResourceOutcome
  outcome node changed = record {
    id = node.id;
    id_hint = T.id_hint node.resource;
    changed = changed;
  }

  -- The first loop of `run_level`: what is skipped, and what is left by family.
  unfoldable pub partition :
      Env → List (Node T.Resource) → List ResourceOutcome → Groups → List ResourceOutcome × Groups
  partition env [] skipped groups = (skipped, groups)
  partition env (node ∷ nodes) skipped groups =
      let skips = evaluate (T.skip_when node.resource) env in
      partition env nodes
        (if skips then skipped ++ (outcome node changed_skipped ∷ []) else skipped)
        (if skips then groups else push_group (T.batch_family node.resource) node groups)

  -- What `joinset.spawn` is given.
  pub data Task : Type 0 where
    batch : Batcher S T.Resource → List (Node T.Resource) → Task
    single : Node T.Resource → Task

  abbrev batcher_of : Option BatchFamily → Option (Batcher S T.Resource)
  batcher_of none = none
  batcher_of (some family) = batchers family

  abbrev group_tasks : Option (Batcher S T.Resource) → List (Node T.Resource) → List Task
  group_tasks (some batcher) members = batch batcher members ∷ []
  group_tasks none members = map single members

  unfoldable pub tasks : Groups → List Task
  tasks [] = []
  tasks ((family, members) ∷ groups) = group_tasks (batcher_of family) members ++ tasks groups

  abbrev zip_outcomes : List (Node T.Resource) → List Changed → List ResourceOutcome
  zip_outcomes (node ∷ nodes) (c ∷ changes) = outcome node c ∷ zip_outcomes nodes changes
  zip_outcomes [] changes = []
  zip_outcomes (node ∷ nodes) [] = []

  -- `show` prints a `usize`.
  module _ (show : ℕ → String) where
    unfoldable pub run_batched :
        Batcher S T.Resource → List (Node T.Resource) → Env → Action S Error (List ResourceOutcome)
    run_batched batcher nodes env =
        let failed : BackendError → Error = backend_failed ("batch:" <> batcher.family) in
        map_err failed (batcher.converge_batch (map (λ node. node.resource) nodes) env)
        >>= λ changes.
            if length changes == length nodes
            then pure (zip_outcomes nodes changes)
            else throw (
                failed (
                  backend_error "executor" (
                    "batcher returned "
                    <> (show (length changes)
                        <> (" outcomes for " <> (show (length nodes) <> " inputs"))))))

    unfoldable pub run_one : Node T.Resource → Env → Action S Error (List ResourceOutcome)
    run_one node env =
        map_err (backend_failed (T.id_hint node.resource)) (T.converge_one node.resource env)
        >>= λ changed. pure (outcome node changed ∷ [])

    abbrev run_task : Task → Env → Action S Error (List ResourceOutcome)
    run_task (batch batcher nodes) env = run_batched batcher nodes env
    run_task (single node) env = run_one node env

    abbrev join_result :
        Option Cause → Result Error (List ResourceOutcome) → Result Error (List ResourceOutcome)
    join_result none r = r
    join_result (some e) r = err (task_panicked ("task join failed: " <> e))

    -- `joined.map_err(..)?`: a task that panicked is an error, whatever it has done.
    unfoldable pub join_task : Task → Env → Action S Error (List ResourceOutcome)
    join_task task env s =
        let (r, s') = run_task task env s in (join_result (T.join_error s') r, s')

    -- `while let Some(joined) = joinset.join_next().await`
    unfoldable pub join_all :
        List Task → Env → List ResourceOutcome → Action S Error (List ResourceOutcome)
    join_all [] env outcomes = pure outcomes
    join_all (task ∷ rest) env outcomes =
        join_task task env >>= λ more. join_all rest env (outcomes ++ more)

    -- The outcomes that the level adds to the report.
    unfoldable pub run_level :
        (ℕ → ℕ) → List (Node T.Resource) → Env → Action S Error (List ResourceOutcome)
    run_level picks nodes env =
        let (skipped, groups) = partition env nodes [] [] in
        join_all (permute picks (tasks groups)) env skipped

    -- `nodes[i]`. The indices of a sorted plan are in range.
    unfoldable pub select : Plan T.Resource → List ℕ → List (Node T.Resource)
    select plan [] = []
    select plan (i ∷ is) =
        let rest = select plan is in
        elim (get_elem? plan i) [ some node ↦ node ∷ rest | none ↦ rest ]

    unfoldable pub record_all : Env → List ResourceOutcome → Env
    record_all env [] = env
    record_all env (o ∷ outcomes) =
        record_all (if same_changed o.changed changed_yes then record_changed env o.id else env)
          outcomes

    -- The loop over the levels. The shared `Env` is returned as the run leaves it.
    unfoldable pub run_levels :
        Plan T.Resource
        → (schedule : ℕ → ℕ → ℕ) → List (List ℕ)
        → Env
        → List ResourceOutcome
        → Action S Error (List ResourceOutcome × Env)
    run_levels plan schedule [] env outcomes = pure (outcomes, env)
    run_levels plan schedule (level ∷ levels) env outcomes =
        run_level (schedule 0) (select plan level) env >>= λ new.
        run_levels plan (λ k. schedule (suc k)) levels (record_all env new) (outcomes ++ new)

    unfoldable pub run : Plan T.Resource → (schedule : ℕ → ℕ → ℕ) → Env → Action S Error Report
    run plan schedule env = lift (compute_topo_levels T plan) >>= λ levels.
        run_levels plan schedule levels env [] >>= λ (outcomes, _).
        pure (record { outcomes = outcomes })
