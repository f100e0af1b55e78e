-- ===== src/Executor/Run/Joins.antt =====
-- `join_next` in src/executor.rs: what a task gives that did not panic.
use ansible_playbooks.Common.{ℕ, ◌≡◌, refl, ap, String, Option, none, some, List}
use ansible_playbooks.Common.Results.{Result, ok}
use ansible_playbooks.Env.{Env}
use ansible_playbooks.Error.{Cause, Error}
use ansible_playbooks.Resource.{Trait, Batcher}
use ansible_playbooks.Resource.Ids.{BatchFamily}
use ansible_playbooks.Executor.Report.{ResourceOutcome}
use ansible_playbooks.Executor.Run.{Task, run_task, join_result, join_task}

module _ {S : Type 0} (T : Trait S) (batchers : BatchFamily → Option (Batcher S T.Resource))
    (show : ℕ → String) where
  join_result-eq-ok :
      (e : Option Cause) (r : Result Error (List ResourceOutcome)) (outs : List ResourceOutcome)
      → join_result T batchers show e r ≡ ok outs
      → r ≡ ok outs
  join_result-eq-ok none r outs same = same
  join_result-eq-ok (some e) r outs same = cc

  -- The outcomes of a task that is joined are those of its run.
  pub join_task-eq-ok :
      (task : Task T batchers) (env : Env) (s : S) (outs : List ResourceOutcome)
      → (join_task T batchers show task env s).0 ≡ ok outs
      → run_task T batchers show task env s ≡ (ok outs, (run_task T batchers show task env s).1)
  unfolding join_task
  join_task-eq-ok task env s outs joined =
      let ran = run_task T batchers show task env s in
      ap (λ r. (r, ran.1)) (join_result-eq-ok (T.join_error ran.1) ran.0 outs joined)

  -- Joining a task leaves the state that the task leaves.
  pub join_task-state :
      (task : Task T batchers) (env : Env) (s : S)
      → (join_task T batchers show task env s).1 ≡ (run_task T batchers show task env s).1
  unfolding join_task
  join_task-state task env s = refl
