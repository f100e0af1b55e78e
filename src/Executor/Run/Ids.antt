-- ===== src/Executor/Run/Ids.antt =====
-- Which nodes a level of src/executor.rs answers for.
use ansible_playbooks.Common.{
  ℕ, zero, suc, ◌+◌, ◌≡◌, refl, String, inl, inr, Option, none, some, List, [], ◌∷◌, ◌++◌, map,
  arith,
}
use ansible_playbooks.Common.{length, count, ◌==◌, if◌then◌else◌, Bool-cases}
use ansible_playbooks.Common.Results.{ok, >>=-eq-ok, Result-cases}
use ansible_playbooks.Env.{Env}
use ansible_playbooks.Resource.{Trait, Batcher, evaluate}
use ansible_playbooks.Resource.Ids.{BatchFamily, Changed, changed_skipped}
use ansible_playbooks.Plan.{Node}
use ansible_playbooks.Executor.Report.{ResourceOutcome}
use ansible_playbooks.Executor.Run.{
  insert_at, permute, same_family, push_group, partition, Groups, outcome, Task, batch, single,
  batcher_of, group_tasks, tasks, zip_outcomes, run_batched, run_one, run_task, join_task, join_all,
  run_level,
}
use ansible_playbooks.Executor.Run.Joins.{join_task-eq-ok}

abbrev pub ids : List ResourceOutcome → List ℕ
ids outcomes = map (λ o. o.id) outcomes

pub count-ids-append :
    (a : ℕ) (xs ys : List ResourceOutcome)
    → count a (ids (xs ++ ys)) ≡ count a (ids xs) + count a (ids ys)
count-ids-append a [] ys = omega arith
count-ids-append a (x ∷ xs) ys = omega (arith, count-ids-append a xs ys)

module _ {S : Type 0} (T : Trait S) (batchers : BatchFamily → Option (Batcher S T.Resource))
    (a : ℕ) where
  -- How many nodes of the list have the id `a`.
  abbrev pub count_nodes : List (Node T.Resource) → ℕ
  count_nodes [] = 0
  count_nodes (node ∷ nodes) = (if a == node.id then 1 else 0) + count_nodes nodes

  abbrev count_groups : Groups T batchers → ℕ
  count_groups [] = 0
  count_groups ((_, members) ∷ groups) = count_nodes members + count_groups groups

  abbrev count_task : Task T batchers → ℕ
  count_task (batch _ nodes) = count_nodes nodes
  count_task (single node) = (if a == node.id then 1 else 0) + 0

  abbrev count_tasks : List (Task T batchers) → ℕ
  count_tasks [] = 0
  count_tasks (task ∷ rest) = count_task task + count_tasks rest

  count_nodes-append :
      (xs ys : List (Node T.Resource)) → count_nodes (xs ++ ys) ≡ count_nodes xs + count_nodes ys
  count_nodes-append [] ys = omega arith
  count_nodes-append (x ∷ xs) ys = omega (arith, count_nodes-append xs ys)

  count_tasks-append :
      (xs ys : List (Task T batchers)) → count_tasks (xs ++ ys) ≡ count_tasks xs + count_tasks ys
  count_tasks-append [] ys = omega arith
  count_tasks-append (x ∷ xs) ys = omega (arith, count_tasks-append xs ys)

  count-push_group :
      (family : Option BatchFamily) (node : Node T.Resource) (groups : Groups T batchers)
      → count_groups (push_group T batchers family node groups)
        ≡ (if a == node.id then 1 else 0) + count_groups groups
  unfolding push_group
  count-push_group family node [] = omega arith
  count-push_group family node ((key, members) ∷ groups) =
      elim (Bool-cases (same_family key family)) [
        | inl same ↦ rw same (omega (arith, count_nodes-append members (node ∷ [])))
        | inr other ↦ rw other (omega (arith, count-push_group family node groups))
      ]

  count-partition :
      (env : Env) (nodes : List (Node T.Resource)) (skipped : List ResourceOutcome)
      (groups : Groups T batchers)
      → count a (ids (partition T batchers env nodes skipped groups).0)
          + count_groups (partition T batchers env nodes skipped groups).1
        ≡ count a (ids skipped) + count_groups groups + count_nodes nodes
  unfolding partition
  count-partition env [] skipped groups = omega arith
  count-partition env (node ∷ nodes) skipped groups =
      let skips = evaluate (T.skip_when node.resource) env in
      let family = T.batch_family node.resource in
      let one : List ResourceOutcome = outcome T batchers node changed_skipped ∷ [] in
      ground (
        arith,
        count-partition env nodes (if skips then skipped ++ one else skipped)
            (if skips then groups else push_group T batchers family node groups),
        count-ids-append a skipped one,
        count-push_group family node groups,
      )

  count-map_single :
      (nodes : List (Node T.Resource)) → count_tasks (map single nodes) ≡ count_nodes nodes
  count-map_single [] = refl
  count-map_single (node ∷ nodes) = omega (arith, count-map_single nodes)

  count-group_tasks :
      (b : Option (Batcher S T.Resource)) (members : List (Node T.Resource))
      → count_tasks (group_tasks T batchers b members) ≡ count_nodes members
  count-group_tasks none members = count-map_single members
  count-group_tasks (some b) members = omega arith

  count-tasks :
      (groups : Groups T batchers) → count_tasks (tasks T batchers groups) ≡ count_groups groups
  unfolding tasks
  count-tasks [] = refl
  count-tasks ((family, members) ∷ groups) =
      let b = batcher_of T batchers family in
      omega (
        arith,
        count-group_tasks b members,
        count-tasks groups,
        count_tasks-append (group_tasks T batchers b members) (tasks T batchers groups),
      )

  count-insert_at :
      (p : ℕ) (t : Task T batchers) (ts : List (Task T batchers))
      → count_tasks (insert_at p t ts) ≡ count_task t + count_tasks ts
  count-insert_at zero t ts = refl
  count-insert_at (suc p) t [] = refl
  count-insert_at (suc p) t (u ∷ us) = omega (arith, count-insert_at p t us)

  count-permute :
      (picks : ℕ → ℕ) (ts : List (Task T batchers))
      → count_tasks (permute picks ts) ≡ count_tasks ts
  count-permute picks [] = refl
  count-permute picks (t ∷ ts) = omega (
    arith,
    count-insert_at (picks 0) t (permute (λ k. picks (suc k)) ts),
    count-permute (λ k. picks (suc k)) ts,
  )

  count-zip_outcomes :
      (nodes : List (Node T.Resource)) (changes : List Changed)
      → length changes ≡ length nodes
      → count a (ids (zip_outcomes T batchers nodes changes)) ≡ count_nodes nodes
  count-zip_outcomes [] changes same = refl
  count-zip_outcomes (node ∷ nodes) [] same = absurd (omega arith)
  count-zip_outcomes (node ∷ nodes) (c ∷ changes) same =
      omega (arith, count-zip_outcomes nodes changes (omega arith))

  module _ (show : ℕ → String) where
    -- A task that succeeds answers for its nodes: the length check of `run_batched` sees to it.
    count-run_task :
        (task : Task T batchers) (env : Env) (s s' : S) (outs : List ResourceOutcome)
        → run_task T batchers show task env s ≡ (ok outs, s')
        → count a (ids outs) ≡ count_task task
    unfolding run_batched run_one
    count-run_task (batch b nodes) env s s' outs e =
        elim (Result-cases (b.converge_batch (map (λ node. node.resource) nodes) env s).0) [
          | inl (changes, done) ↦ ground (arith, done, count-zip_outcomes nodes changes)
          | inr (x, failed) ↦ absurd (ground arith)
        ]
    count-run_task (single node) env s s' outs e = ground arith

    count-join_all :
        (ts : List (Task T batchers)) (env : Env) (done : List ResourceOutcome) (s s' : S)
        (outs : List ResourceOutcome)
        → join_all T batchers show ts env done s ≡ (ok outs, s')
        → count a (ids outs) ≡ count a (ids done) + count_tasks ts
    unfolding join_all
    count-join_all [] env done s s' outs e = ground arith
    count-join_all (t ∷ ts) env done s s' outs e =
        let (more, ran, rest) =
          >>=-eq-ok (join_task T batchers show t env)
            (λ more. join_all T batchers show ts env (done ++ more)) s s' e in
        omega (
          arith,
          count-run_task t env s (run_task T batchers show t env s).1 more
              (join_task-eq-ok T batchers show t env s more ran),
          count-join_all ts env (done ++ more) (join_task T batchers show t env s).1 s' outs rest,
          count-ids-append a done more,
        )

    pub count-run_level :
        (picks : ℕ → ℕ) (nodes : List (Node T.Resource)) (env : Env) (s s' : S)
        (outs : List ResourceOutcome)
        → run_level T batchers show picks nodes env s ≡ (ok outs, s')
        → count a (ids outs) ≡ count_nodes nodes
    unfolding run_level
    count-run_level picks nodes env s s' outs e =
        let (skipped, groups) = partition T batchers env nodes [] [] in
        let ts = tasks T batchers groups in
        omega (
          arith,
          count-join_all (permute picks ts) env skipped s s' outs e,
          count-permute picks ts,
          count-tasks groups,
          count-partition env nodes [] [],
        )
