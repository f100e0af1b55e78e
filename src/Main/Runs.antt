-- ===== src/Main/Runs.antt =====
-- The run of an assembled plan, and the whole program: src/main.rs over src/executor.rs.
use ansible_playbooks.Common.{
  ℕ, ◌≡◌, refl, ◌∙◌, true, inl, inr, String, Option, List, [], arith, count, ltb, if◌then◌else◌,
}
use ansible_playbooks.Common.Results.{Result, ok, err, Result-cases}
use ansible_playbooks.Common.Text.{decimal}
use ansible_playbooks.Env.{Env, is_dry_run, with_run_mode, apply, dry_run}
use ansible_playbooks.Env.Detect.{detect}
use ansible_playbooks.Env.Detect.Found.{IsQuietProbe, detect-Keeps}
use ansible_playbooks.Error.{Cause, Error}
use ansible_playbooks.Host.{Host, IsReadOnly}
use ansible_playbooks.Config.{Config, load}
use ansible_playbooks.Plan.{len}
use ansible_playbooks.Backends.Registry.{backends}
use ansible_playbooks.Backends.Batchers.{batchers}
use ansible_playbooks.Executor.Report.{Report}
use ansible_playbooks.Executor.Topo.Nodes.{deps_at}
use ansible_playbooks.Executor.Run.Ids.{ids}
use ansible_playbooks.Executor.Run.Order.{IsSettled, run-each_once, run-IsSettled}
use ansible_playbooks.System.{execute, execute-dry_run}
use ansible_playbooks.Bundles.{Setting}
use ansible_playbooks.Main.{BundleName, Args, assemble, run_plan, with_env, main}
use ansible_playbooks.Main.Soundness.{assemble-IsNumbered}

module _ (H : Host) (setting : Setting) (bundles : List BundleName) (schedule : ℕ → ℕ → ℕ)
    (env : Env) (s : H.State) where
  module _ (s' : H.State) (report : Report)
      (ran : execute H (assemble setting bundles) schedule env s ≡ (ok report, s')) where
    -- A run of the assembled plan that succeeds reports each of its resources exactly once, behind
    -- everything that the resource depends on.
    pub execute-assemble-report :
        ((a : ℕ)
          → count a (ids report.outcomes)
            ≡ (if ltb a (len (assemble setting bundles)) then 1 else 0))
        × IsSettled (deps_at (backends H) (assemble setting bundles)) [] report.outcomes
    unfolding execute
    execute-assemble-report =
        let plan = assemble setting bundles in
        let numbered = assemble-IsNumbered setting bundles in
        (
          run-each_once (backends H) (batchers H) decimal plan numbered schedule env s s' report
              ran,
          run-IsSettled (backends H) (batchers H) decimal plan numbered schedule env s s' report
              ran,
        )

module _ (H : Host) (arch : String) (from_yaml : String → Result Cause Config)
    (profile_d : H.State → Option (List String)) where
  run_plan-dry_run :
      IsReadOnly H
      → (args : Args) (schedule : ℕ → ℕ → ℕ) (env : Env) (config : Config) (s : H.State)
      → is_dry_run env ≡ true
      → (run_plan H arch from_yaml profile_d args schedule env config s).1 ≡ s
  unfolding run_plan
  run_plan-dry_run quiet args schedule env config s dry =
      execute-dry_run H quiet (assemble _ args.bundles) schedule env dry s

  with_env-dry_run :
      IsReadOnly H
      → (args : Args) (schedule : ℕ → ℕ → ℕ) (detected : Result Error Env) (s : H.State)
      → args.dry_run ≡ true
      → (with_env H arch from_yaml profile_d args schedule detected s).1 ≡ s
  unfolding with_env with_run_mode is_dry_run
  with_env-dry_run quiet args schedule (err e) s dry = refl
  with_env-dry_run quiet args schedule (ok env) s dry =
      let mode = if args.dry_run then dry_run else apply in
      elim (Result-cases (load H from_yaml args.config s)) [
        | inl (config, loaded) ↦ ground (
          arith,
          loaded,
          dry,
          run_plan-dry_run quiet args schedule (with_run_mode env mode) config s,
        )
        | inr (e, failed) ↦ ground (arith, failed)
      ]

  -- With `--dry-run`, the program leaves the host as it was, whatever it exits with, if the child
  -- processes that only look, and HTTPS requests, change nothing.
  pub main-dry_run :
      IsReadOnly H
      → IsQuietProbe H
      → (args : Args) (schedule : ℕ → ℕ → ℕ) (s : H.State) → args.dry_run ≡ true
      → (main H arch from_yaml profile_d args schedule s).1 ≡ s
  unfolding main
  main-dry_run quiet probes args schedule s dry =
      with_env-dry_run quiet args schedule (detect H arch s).0 (detect H arch s).1 dry
      ∙ detect-Keeps H arch s probes
