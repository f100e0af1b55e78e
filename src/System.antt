-- ===== src/System.antt =====
-- The executor over the backends of the repository: `Executor::new(plan).run(env)` in src/main.rs.
use ansible_playbooks.Common.{ℕ, ◌≡◌, true}
use ansible_playbooks.Common.Results.{Action}
use ansible_playbooks.Common.Text.{decimal}
use ansible_playbooks.Env.{Env, is_dry_run}
use ansible_playbooks.Error.{Error}
use ansible_playbooks.Host.{Host, IsReadOnly}
use ansible_playbooks.Plan.{Plan}
use ansible_playbooks.Backends.Registry.{Resource, backends}
use ansible_playbooks.Backends.Batchers.{batchers}
use ansible_playbooks.Backends.Batchers.Laws.{backends-IsDry}
use ansible_playbooks.Executor.Report.{Report}
use ansible_playbooks.Executor.Run.{run}
use ansible_playbooks.Executor.Run.DryRun.{run-Keeps}

module _ (H : Host) where
  unfoldable pub execute :
      Plan Resource → (schedule : ℕ → ℕ → ℕ) → Env → Action H.State Error Report
  unfolding run decimal
  execute plan schedule env = run (backends H) (batchers H) decimal plan schedule env

  -- A dry run leaves the host as it was, whatever the plan, the schedule, and whether it fails,
  -- if the child processes that sense (`getent`, `id`, `dpkg-query`, `systemctl is-enabled` and
  -- `is-active`) and HTTPS requests change nothing.
  pub execute-dry_run :
      IsReadOnly H
      → (plan : Plan Resource) (schedule : ℕ → ℕ → ℕ) (env : Env) → is_dry_run env ≡ true
      → (s : H.State) → (execute plan schedule env s).1 ≡ s
  unfolding execute
  execute-dry_run quiet plan schedule env dry s =
      run-Keeps (backends H) (batchers H) decimal (backends-IsDry H quiet) plan schedule env dry s
