-- ===== src/Executor/Run/Success.antt =====
-- When a run of src/executor.rs succeeds.
use ansible_playbooks.Common.{
  ℕ, suc, ◌≡◌, refl, String, Option, none, some, get_elem?, List, [], ◌∷◌, ◌++◌, map, arith, All,
  length, subst,
}
use ansible_playbooks.Common.Results.{Result, ok, err, Action, and_then, ◌>>=◌}
use ansible_playbooks.Env.{Env}
use ansible_playbooks.Resource.{Trait, Batcher}
use ansible_playbooks.Resource.Ids.{BatchFamily, Changed}
use ansible_playbooks.Plan.{Node, Plan}
use ansible_playbooks.Executor.Report.{ResourceOutcome, Report}
use ansible_playbooks.Executor.Topo.Correct.{IsAcyclic, compute_topo_levels-acyclic}
use ansible_playbooks.Executor.Run.{
  permute, partition, Task, batch, single, outcome, zip_outcomes, tasks, run_batched, run_one,
  run_task, join_task, join_all, run_level, select, record_all, run_levels, run,
}
use ansible_playbooks.Executor.Run.Registered.{permute-All}
use ansible_playbooks.Executor.Run.Members.{
  MemberHas, TaskHas, partition-Has, tasks-Has, select-Has,
}

module _ {S : Type 0} (IsFit : S → Type 0) where
  -- From a fit state the action succeeds and leaves a fit state.
  abbrev Succeeds : {E A : Type 0} → Action S E A → Type 0
  Succeeds {E} {A} m = (s : S) → IsFit s → (a : A) × ((m s).0 ≡ ok a) × IsFit (m s).1

  and_then-Succeeds :
      {E A B : Type 0} (r : Result E A) (f : A → Action S E B)
      → (a : A) → r ≡ ok a
      → Succeeds (f a)
      → (s : S) → IsFit s
      → (b : B) × ((and_then r f s).0 ≡ ok b) × IsFit (and_then r f s).1
  and_then-Succeeds (ok x) f a e h s fit = let same : a ≡ x = cc in rw same at (h s fit)
  and_then-Succeeds (err x) f a e h s fit = cc

  >>=-Succeeds :
      {E A B : Type 0} (m : Action S E A) (f : A → Action S E B)
      → Succeeds m
      → ((a : A) → Succeeds (f a))
      → Succeeds (m >>= f)
  >>=-Succeeds m f h k s fit =
      let (a, e, fit') = h s fit in and_then-Succeeds (m s).0 f a e (k a) (m s).1 fit'

-- The node is in the plan.
abbrev pub IsOf : {R : Type 0} → Plan R → Node R → Type 0
IsOf plan node = (i : ℕ) × (get_elem? plan i ≡ some node)

-- From a fit state no resource of the plan fails, nor a registered batcher on resources of the
-- plan that are in its family, for which it has one answer each, no task panics, and fit states are left.
pub record IsReliable {S : Type 0} (T : Trait S)
    (batchers : BatchFamily → Option (Batcher S T.Resource)) (plan : Plan T.Resource)
    (IsFit : S → Type 0) : Type 0 where
  pub one :
      (node : Node T.Resource)
      → IsOf plan node
      → (env : Env) (s : S) → IsFit s
      → (c : Changed) × ((T.converge_one node.resource env s).0 ≡ ok c)
        × IsFit (T.converge_one node.resource env s).1
  pub many :
      (family : BatchFamily) (b : Batcher S T.Resource)
      → batchers family ≡ some b
      → (nodes : List (Node T.Resource))
      → All (MemberHas T batchers (IsOf plan) (some family)) nodes
      → (env : Env) (s : S) → IsFit s
      → (cs : List Changed) × ((b.converge_batch (map (λ node. node.resource) nodes) env s).0
          ≡ ok cs)
        × (length cs ≡ length nodes)
        × IsFit (b.converge_batch (map (λ node. node.resource) nodes) env s).1
  pub joins : (s : S) → IsFit s → T.join_error s ≡ none

module _ {S : Type 0} (T : Trait S) (batchers : BatchFamily → Option (Batcher S T.Resource))
    (show : ℕ → String) (plan : Plan T.Resource) (IsFit : S → Type 0)
    (reliable : IsReliable T batchers plan IsFit) where
  run_task-Succeeds :
      (task : Task T batchers) (env : Env)
      → TaskHas T batchers (IsOf plan) task
      → Succeeds IsFit (run_task T batchers show task env)
  unfolding run_batched run_one
  run_task-Succeeds (batch b nodes) env (family, e, listed) s fit =
      let (cs, done, all, fit') = reliable.many family b e nodes listed env s fit in
      let left : (b.converge_batch (map (λ node. node.resource) nodes) env s).1
          ≡ (run_batched T batchers show b nodes env s).1 =
        ground (arith, done, all) in
      (zip_outcomes T batchers nodes cs, ground (arith, done, all), subst IsFit left fit')
  run_task-Succeeds (single node) env listed s fit =
      let (c, done, fit') = reliable.one node listed env s fit in
      let left : (T.converge_one node.resource env s).1 ≡ (run_one T batchers show node env s).1 =
        ground (arith, done) in
      (outcome T batchers node c ∷ [], ground (arith, done), subst IsFit left fit')

  join_task-Succeeds :
      (task : Task T batchers) (env : Env)
      → TaskHas T batchers (IsOf plan) task
      → Succeeds IsFit (join_task T batchers show task env)
  unfolding join_task
  join_task-Succeeds task env listed s fit =
      let (outs, done, fit') = run_task-Succeeds task env listed s fit in
      (outs, rw (reliable.joins _ fit', done) refl, fit')

  join_all-Succeeds :
      (ts : List (Task T batchers)) (env : Env) (done : List ResourceOutcome)
      → All (TaskHas T batchers (IsOf plan)) ts
      → Succeeds IsFit (join_all T batchers show ts env done)
  unfolding join_all
  join_all-Succeeds [] env done listed = λ s fit. (done, refl, fit)
  join_all-Succeeds (t ∷ ts) env done listed =
      >>=-Succeeds IsFit (join_task T batchers show t env)
        (λ more. join_all T batchers show ts env (done ++ more)) (join_task-Succeeds t env listed.0)
        (λ more. join_all-Succeeds ts env (done ++ more) listed.1)

  run_level-Succeeds :
      (picks : ℕ → ℕ) (nodes : List (Node T.Resource)) (env : Env)
      → All (IsOf plan) nodes
      → Succeeds IsFit (run_level T batchers show picks nodes env)
  unfolding run_level
  run_level-Succeeds picks nodes env listed =
      let (skipped, groups) = partition T batchers env nodes [] [] in
      let kept = partition-Has T batchers (IsOf plan) env nodes [] [] listed tt in
      join_all-Succeeds (permute picks (tasks T batchers groups)) env skipped (
        permute-All (TaskHas T batchers (IsOf plan)) picks _
          (tasks-Has T batchers (IsOf plan) groups kept))

  run_levels-Succeeds :
      (schedule : ℕ → ℕ → ℕ) (levels : List (List ℕ)) (env : Env) (outs : List ResourceOutcome)
      → Succeeds IsFit (run_levels T batchers show plan schedule levels env outs)
  unfolding run_levels
  run_levels-Succeeds schedule [] env outs = λ s fit. ((outs, env), refl, fit)
  run_levels-Succeeds schedule (level ∷ levels) env outs =
      let nodes = select T batchers show plan level in
      let later : ℕ → ℕ → ℕ = λ k. schedule (suc k) in
      >>=-Succeeds IsFit (run_level T batchers show (schedule 0) nodes env)
        (λ new.
          run_levels T batchers show plan later levels (record_all T batchers show env new)
            (outs ++ new))
        (run_level-Succeeds (schedule 0) nodes env
          (select-Has T batchers (IsOf plan) show plan (λ i node found. (i, found)) level))
        (λ new. run_levels-Succeeds later levels (record_all T batchers show env new) (outs ++ new))

  -- If, from every fit state, no resource of the plan fails, no batcher fails on resources of the
  -- plan, batches answer for each of their resources, no task panics, and fit states are left,
  -- then a run of the plan from a fit state succeeds, whatever the schedule, if the plan has no
  -- cycle and no dangling dependency.
  pub run-succeeds :
      (rank : ℕ → ℕ)
      → IsAcyclic T plan rank
      → (schedule : ℕ → ℕ → ℕ) (env : Env) (s : S) → IsFit s
      → (report : Report) × ((run T batchers show plan schedule env s).0 ≡ ok report)
  unfolding run
  run-succeeds rank acyclic schedule env s fit =
      let (levels, sorted) = compute_topo_levels-acyclic T plan rank acyclic in
      let ((outs, final), ran, fit') = run_levels-Succeeds schedule levels env [] s fit in
      (record { outcomes = outs }, ground (arith, sorted, ran))
