-- ===== src/Executor/Run/DryRun.antt =====
-- A run of src/executor.rs over resources and batchers that leave the host alone.
use ansible_playbooks.Common.{
  ℕ, suc, ◌≡◌, refl, ◌∙◌, String, true, Option, some, List, [], ◌∷◌, ◌++◌, map, arith, All, inl,
  inr,
}
use ansible_playbooks.Common.Results.{Keeps, >>=-Keeps, Result-cases}
use ansible_playbooks.Env.{Env, is_dry_run}
use ansible_playbooks.Resource.{Trait, Batcher}
use ansible_playbooks.Resource.Ids.{BatchFamily}
use ansible_playbooks.Plan.{Node, Plan}
use ansible_playbooks.Executor.Report.{ResourceOutcome}
use ansible_playbooks.Executor.Topo.{compute_topo_levels}
use ansible_playbooks.Executor.Run.{
  permute, partition, Task, batch, single, tasks, run_batched, run_one, run_task, join_task,
  join_all, run_level, select, record_all, run_levels, run,
}
use ansible_playbooks.Executor.Run.Joins.{join_task-state}
use ansible_playbooks.Executor.Run.Registered.{
  IsRegistered, tasks-IsRegistered, permute-IsRegistered,
}
use ansible_playbooks.Executor.Run.Notify.{is_dry_run-record_all}

-- In a dry run no resource and no batcher changes the host.
pub record IsDry {S : Type 0} (T : Trait S) (batchers : BatchFamily → Option (Batcher S T.Resource))
    : Type 0 where
  pub one : (r : T.Resource) (env : Env) → is_dry_run env ≡ true → Keeps (T.converge_one r env)
  pub many :
      (family : BatchFamily) (b : Batcher S T.Resource)
      → batchers family ≡ some b
      → (rs : List T.Resource) (env : Env) → is_dry_run env ≡ true
      → Keeps (b.converge_batch rs env)

module _ {S : Type 0} (T : Trait S) (batchers : BatchFamily → Option (Batcher S T.Resource))
    (show : ℕ → String) (dry : IsDry T batchers) where
  run_task-Keeps :
      (task : Task T batchers) (env : Env)
      → IsRegistered T batchers task
      → is_dry_run env ≡ true
      → Keeps (run_task T batchers show task env)
  unfolding run_batched run_one
  run_task-Keeps (batch b nodes) env (family, e) h s =
      ground (arith, dry.many family b e (map (λ node. node.resource) nodes) env h s)
  run_task-Keeps (single node) env _ h s = ground (arith, dry.one node.resource env h s)

  join_all-Keeps :
      (ts : List (Task T batchers)) (env : Env) (done : List ResourceOutcome)
      → All (IsRegistered T batchers) ts
      → is_dry_run env ≡ true
      → Keeps (join_all T batchers show ts env done)
  unfolding join_all
  join_all-Keeps [] env done _ h = λ s. refl
  join_all-Keeps (t ∷ ts) env done registered h =
      >>=-Keeps (join_task T batchers show t env)
        (λ more. join_all T batchers show ts env (done ++ more))
        (λ s. join_task-state T batchers show t env s ∙ run_task-Keeps t env registered.0 h s)
        (λ more. join_all-Keeps ts env (done ++ more) registered.1 h)

  run_level-Keeps :
      (picks : ℕ → ℕ) (nodes : List (Node T.Resource)) (env : Env)
      → is_dry_run env ≡ true
      → Keeps (run_level T batchers show picks nodes env)
  unfolding run_level
  run_level-Keeps picks nodes env h =
      let (skipped, groups) = partition T batchers env nodes [] [] in
      join_all-Keeps (permute picks (tasks T batchers groups)) env skipped
        (permute-IsRegistered T batchers picks _ (tasks-IsRegistered T batchers groups)) h

  module _ (plan : Plan T.Resource) where
    run_levels-Keeps :
        (schedule : ℕ → ℕ → ℕ) (levels : List (List ℕ)) (env : Env) (outs : List ResourceOutcome)
        → is_dry_run env ≡ true
        → Keeps (run_levels T batchers show plan schedule levels env outs)
    unfolding run_levels
    run_levels-Keeps schedule [] env outs h = λ s. refl
    run_levels-Keeps schedule (level ∷ levels) env outs h =
        let nodes = select T batchers show plan level in
        let later : ℕ → ℕ → ℕ = λ k. schedule (suc k) in
        >>=-Keeps (run_level T batchers show (schedule 0) nodes env)
          (λ new.
            run_levels T batchers show plan later levels (record_all T batchers show env new)
              (outs ++ new))
          (run_level-Keeps (schedule 0) nodes env h)
          (λ new.
            run_levels-Keeps later levels (record_all T batchers show env new) (outs ++ new)
              (is_dry_run-record_all T batchers show env new ∙ h))

    pub run-Keeps :
        (schedule : ℕ → ℕ → ℕ) (env : Env)
        → is_dry_run env ≡ true
        → Keeps (run T batchers show plan schedule env)
    unfolding run
    run-Keeps schedule env h s = elim (Result-cases (compute_topo_levels T plan)) [
      | inl (levels, e) ↦ ground (arith, e, run_levels-Keeps schedule levels env [] h s)
      | inr (x, e) ↦ ground (arith, e)
    ]
