-- ===== src/Executor/Run/Quiet.antt =====
-- Nodes of src/executor.rs that never report a change, and what later levels see of them.
use ansible_playbooks.Common.{
  ℕ, suc, ◌≡◌, ◌≢◌, refl, ap, ◌∙◌, String, true, false, ◌&&◌, inl, inr, Option, none, some, List,
  [], ◌∷◌, ◌++◌, map, arith, All, All-append, Bool-cases, get_elem?, Option-cases,
}
use ansible_playbooks.Common.{◌==◌}
use ansible_playbooks.Common.Results.{ok, Result-cases, >>=-eq-ok}
use ansible_playbooks.Env.{Env}
use ansible_playbooks.Resource.{Trait, Batcher, evaluate}
use ansible_playbooks.Resource.Ids.{BatchFamily, Changed, changed_yes, changed_no, changed_skipped}
use ansible_playbooks.Plan.{Node, Plan}
use ansible_playbooks.Executor.Report.{ResourceOutcome, same_changed}
use ansible_playbooks.Executor.Run.{
  same_family, push_group, partition, Groups, outcome, Task, batch, single, batcher_of, group_tasks,
  tasks, zip_outcomes, run_batched, run_one, run_task, join_task, join_all, run_level, select,
  record_all, run_levels,
}
use ansible_playbooks.Executor.Run.Joins.{join_task-eq-ok}
use ansible_playbooks.Executor.Run.Registered.{permute-All}
use ansible_playbooks.Executor.Run.Notify.{changed_in, any-append}

changed_in-append :
    (a : ℕ) (xs ys : List ResourceOutcome)
    → changed_in xs a ≡ false
    → changed_in ys a ≡ false
    → changed_in (xs ++ ys) a ≡ false
changed_in-append a xs ys hx hy = ground (
  arith,
  any-append (λ (o : ResourceOutcome). same_changed o.changed changed_yes && o.id == a) xs ys,
)

same_changed-yes : (c : Changed) → c ≢ changed_yes → same_changed c changed_yes ≡ false
same_changed-yes changed_yes h = absurd (h refl)
same_changed-yes changed_no h = refl
same_changed-yes changed_skipped h = refl

module _ {S : Type 0} (T : Trait S) (batchers : BatchFamily → Option (Batcher S T.Resource))
    (a : ℕ) where
  -- A resource that is in no batch and never reports that it changed.
  pub record IsQuiet (r : T.Resource) : Type 0 where
    pub alone : T.batch_family r ≡ none
    pub silent : (env : Env) (s : S) → (T.converge_one r env s).0 ≢ ok changed_yes

  -- What has the id `a` is quiet.
  abbrev pub QuietNode : Node T.Resource → Type 0
  QuietNode node = node.id ≡ a → IsQuiet node.resource

  abbrev Elsewhere : List (Node T.Resource) → Type 0
  Elsewhere nodes = All (λ node. node.id ≢ a) nodes

  abbrev QuietGroup : Option BatchFamily × List (Node T.Resource) → Type 0
  QuietGroup (none, members) = All QuietNode members
  QuietGroup (some family, members) = Elsewhere members

  abbrev QuietTask : Task T batchers → Type 0
  QuietTask (single node) = QuietNode node
  QuietTask (batch b nodes) = Elsewhere nodes

  push_member :
      (key family : Option BatchFamily) (node : Node T.Resource) (members : List (Node T.Resource))
      → same_family key family ≡ true
      → QuietNode node
      → T.batch_family node.resource ≡ family
      → QuietGroup (key, members)
      → QuietGroup (key, members ++ (node ∷ []))
  push_member none family node members same quiet e h =
      All-append QuietNode members (node ∷ []) h (quiet, tt)
  push_member (some k) none node members same quiet e h = cc
  push_member (some k) (some f) node members same quiet e h =
      All-append (λ node. node.id ≢ a) members (node ∷ []) h
        ((λ here. let alone = (quiet here).alone in cc), tt)

  first_member :
      (family : Option BatchFamily) (node : Node T.Resource)
      → QuietNode node
      → T.batch_family node.resource ≡ family
      → QuietGroup (family, node ∷ [])
  first_member none node quiet e = (quiet, tt)
  first_member (some f) node quiet e = ((λ here. let alone = (quiet here).alone in cc), tt)

  push_group-Quiet :
      (family : Option BatchFamily) (node : Node T.Resource) (groups : Groups T batchers)
      → QuietNode node
      → T.batch_family node.resource ≡ family
      → All QuietGroup groups
      → All QuietGroup (push_group T batchers family node groups)
  unfolding push_group
  push_group-Quiet family node [] quiet e h = (first_member family node quiet e, tt)
  push_group-Quiet family node ((key, members) ∷ groups) quiet e h =
      elim (Bool-cases (same_family key family)) [
        | inl same ↦ rw same (push_member key family node members same quiet e h.0, h.1)
        | inr other ↦ rw other (h.0, push_group-Quiet family node groups quiet e h.1)
      ]

  -- What the first loop of a level leaves to run is quiet, and what it skips has not changed.
  partition-Quiet :
      (env : Env) (nodes : List (Node T.Resource)) (skipped : List ResourceOutcome)
      (groups : Groups T batchers)
      → All QuietNode nodes
      → changed_in skipped a ≡ false
      → All QuietGroup groups
      → (changed_in (partition T batchers env nodes skipped groups).0 a ≡ false)
        × All QuietGroup (partition T batchers env nodes skipped groups).1
  unfolding partition
  partition-Quiet env [] skipped groups quiet none_yet h = (none_yet, h)
  partition-Quiet env (node ∷ nodes) skipped groups quiet none_yet h =
      elim (Bool-cases (evaluate (T.skip_when node.resource) env)) [
        | inl skips ↦
            rw (skips, partition)
              (partition-Quiet env nodes (skipped ++ (outcome T batchers node changed_skipped ∷ []))
                groups quiet.1 (changed_in-append a skipped _ none_yet refl) h)
        | inr runs ↦
            rw (runs, partition)
              (partition-Quiet env nodes skipped
                (push_group T batchers (T.batch_family node.resource) node groups) quiet.1 none_yet
                (push_group-Quiet _ node groups quiet.0 refl h))
      ]

  singles-Quiet :
      (members : List (Node T.Resource))
      → All QuietNode members
      → All QuietTask (map single members)
  singles-Quiet [] h = tt
  singles-Quiet (node ∷ members) h = (h.0, singles-Quiet members h.1)

  Elsewhere-Quiet : (members : List (Node T.Resource)) → Elsewhere members → All QuietNode members
  Elsewhere-Quiet [] h = tt
  Elsewhere-Quiet (node ∷ members) h = ((λ here. absurd (h.0 here)), Elsewhere-Quiet members h.1)

  group_tasks-Quiet :
      (family : Option BatchFamily) (members : List (Node T.Resource))
      (b : Option (Batcher S T.Resource))
      → batcher_of T batchers family ≡ b
      → QuietGroup (family, members)
      → All QuietTask (group_tasks T batchers b members)
  group_tasks-Quiet none members (some b) e h = cc
  group_tasks-Quiet none members none e h = singles-Quiet members h
  group_tasks-Quiet (some f) members (some b) e h = (h, tt)
  group_tasks-Quiet (some f) members none e h = singles-Quiet members (Elsewhere-Quiet members h)

  tasks-Quiet :
      (groups : Groups T batchers) → All QuietGroup groups → All QuietTask (tasks T batchers groups)
  unfolding tasks
  tasks-Quiet [] h = tt
  tasks-Quiet ((family, members) ∷ groups) h =
      All-append QuietTask (group_tasks T batchers (batcher_of T batchers family) members)
        (tasks T batchers groups) (group_tasks-Quiet family members _ refl h.0)
        (tasks-Quiet groups h.1)

  changed_in-zip_outcomes :
      (nodes : List (Node T.Resource)) (changes : List Changed)
      → Elsewhere nodes
      → changed_in (zip_outcomes T batchers nodes changes) a ≡ false
  changed_in-zip_outcomes [] changes h = refl
  changed_in-zip_outcomes (node ∷ nodes) [] h = refl
  changed_in-zip_outcomes (node ∷ nodes) (c ∷ changes) h =
      ground (arith, h.0, changed_in-zip_outcomes nodes changes h.1)

  module _ (show : ℕ → String) where
    changed_in-run_task :
        (task : Task T batchers) (env : Env) (s s' : S) (outs : List ResourceOutcome)
        → QuietTask task
        → run_task T batchers show task env s ≡ (ok outs, s')
        → changed_in outs a ≡ false
    unfolding run_batched run_one
    changed_in-run_task (batch b nodes) env s s' outs h e =
        elim (Result-cases (b.converge_batch (map (λ node. node.resource) nodes) env s).0) [
          | inl (changes, done) ↦ ground (arith, done, changed_in-zip_outcomes nodes changes h)
          | inr (x, failed) ↦ absurd (ground arith)
        ]
    changed_in-run_task (single node) env s s' outs h e =
        elim (Result-cases (T.converge_one node.resource env s).0) [
          | inl (c, done) ↦ elim (Bool-cases (node.id == a)) [
            | inl here ↦
                let quiet = h (ground arith) in
                let silent = same_changed-yes c (λ yes. quiet.silent env s (done ∙ ap ok yes)) in
                ground (arith, done, silent)
            | inr other ↦ ground (arith, done, other)
          ]
          | inr (x, failed) ↦ absurd (ground (arith, failed))
        ]

    changed_in-join_all :
        (ts : List (Task T batchers)) (env : Env) (done : List ResourceOutcome) (s s' : S)
        (outs : List ResourceOutcome)
        → All QuietTask ts
        → changed_in done a ≡ false
        → join_all T batchers show ts env done s ≡ (ok outs, s')
        → changed_in outs a ≡ false
    unfolding join_all
    changed_in-join_all [] env done s s' outs h none_yet e =
        let same : done ≡ outs = ground arith in rw same at none_yet
    changed_in-join_all (t ∷ ts) env done s s' outs h none_yet e =
        let (more, ran, rest) =
          >>=-eq-ok (join_task T batchers show t env)
            (λ more. join_all T batchers show ts env (done ++ more)) s s' e in
        changed_in-join_all ts env (done ++ more) _ s' outs h.1
          (changed_in-append a done more none_yet (
            changed_in-run_task t env s (run_task T batchers show t env s).1 more h.0
              (join_task-eq-ok T batchers show t env s more ran)))
          rest

    changed_in-run_level :
        (picks : ℕ → ℕ) (nodes : List (Node T.Resource)) (env : Env) (s s' : S)
        (outs : List ResourceOutcome)
        → All QuietNode nodes
        → run_level T batchers show picks nodes env s ≡ (ok outs, s')
        → changed_in outs a ≡ false
    unfolding run_level
    changed_in-run_level picks nodes env s s' outs h e =
        let (none_yet, quiet) = partition-Quiet env nodes [] [] h refl tt in
        changed_in-join_all _ env _ s s' outs (permute-All QuietTask picks _ (tasks-Quiet _ quiet))
          none_yet e

    module _ (plan : Plan T.Resource)
        (quiet : (i : ℕ) (node : Node T.Resource)
          → get_elem? plan i ≡ some node
          → QuietNode node) where
      select-Quiet : (level : List ℕ) → All QuietNode (select T batchers show plan level)
      unfolding select
      select-Quiet [] = tt
      select-Quiet (i ∷ is) = elim (Option-cases (get_elem? plan i)) [
        | inl out ↦ rw (out, select) (select-Quiet is)
        | inr (node, found) ↦ rw (found, select) (quiet i node found, select-Quiet is)
      ]

      -- An id whose nodes are all quiet is never recorded as changed by a run over any levels.
      pub changed_in-run_levels :
          (schedule : ℕ → ℕ → ℕ) (levels : List (List ℕ)) (env env' : Env)
          (outs outs' : List ResourceOutcome) (s s' : S)
          → changed_in outs a ≡ false
          → run_levels T batchers show plan schedule levels env outs s ≡ (ok (outs', env'), s')
          → changed_in outs' a ≡ false
      unfolding run_levels
      changed_in-run_levels schedule [] env env' outs outs' s s' none_yet e =
          let same : outs ≡ outs' = ground arith in rw same at none_yet
      changed_in-run_levels schedule (level ∷ levels) env env' outs outs' s s' none_yet e =
          let nodes = select T batchers show plan level in
          let later : ℕ → ℕ → ℕ = λ k. schedule (suc k) in
          let (new, ran, rest) =
            >>=-eq-ok (run_level T batchers show (schedule 0) nodes env)
              (λ new.
                run_levels T batchers show plan later levels (record_all T batchers show env new)
                  (outs ++ new))
              s s' e in
          changed_in-run_levels later levels (record_all T batchers show env new) env' (outs ++ new)
            outs' _ s'
            (changed_in-append a outs new none_yet (
              changed_in-run_level (schedule 0) nodes env s
                (run_level T batchers show (schedule 0) nodes env s).1 new (select-Quiet level)
                (ground arith)))
            rest
