-- ===== src/Backends/Notify.antt =====
-- `trigger_on` of src/backends/command.rs and `restart_on` of service.rs, as the executor feeds them.
use ansible_playbooks.Common.{
  ℕ, ◌≡◌, true, false, String, some, List, [], ◌∷◌, arith, any, if◌then◌else◌,
}
use ansible_playbooks.Common.Results.{ok, pure, ◌>>◌}
use ansible_playbooks.Common.Text.{decimal}
use ansible_playbooks.Env.{Env, is_dry_run, any_changed}
use ansible_playbooks.Resource.Ids.{ResourceId, changed_yes, changed_no}
use ansible_playbooks.Plan.{Plan}
use ansible_playbooks.Host.{Host}
use ansible_playbooks.Backends.Command
use ansible_playbooks.Backends.Command.{Command}
use ansible_playbooks.Backends.Service
use ansible_playbooks.Backends.Service.{Service, systemctl_status, run_systemctl}
use ansible_playbooks.Backends.Registry.{Resource, backends}
use ansible_playbooks.Backends.Batchers.{batchers}
use ansible_playbooks.Executor.Report.{ResourceOutcome}
use ansible_playbooks.Executor.Run.{run_levels}
use ansible_playbooks.Executor.Run.Notify.{changed_in, any_changed-run_levels}

command_argv :
    (H : Host) (c : Command) (argv : List String) (program : String) (args : List String)
    (env : Env) (triggers : List ResourceId) (s : H.State)
    → argv ≡ program ∷ args
    → c.trigger_on ≡ some triggers
    → is_dry_run env ≡ false
    → Command.converge_argv H c argv env s
      ≡ (if any_changed env triggers then Command.run_argv H c s else (ok changed_no, s))
unfolding Command.converge_argv
command_argv H c [] program args env triggers s e watch real = cc
command_argv H c (first ∷ more) program args env triggers s e watch real =
    ground (arith, watch, real)

-- `env` is what a run passes to the level behind `levels`, which produced the outcomes `outs`.
module _ (H : Host) (plan : Plan Resource) (schedule : ℕ → ℕ → ℕ) (levels : List (List ℕ))
    (start env : Env) (outs : List ResourceOutcome) (s s' : H.State) (fresh : start.run_state ≡ [])
    (ran : run_levels (backends H) (batchers H) decimal plan schedule levels start [] s
      ≡ (ok (outs, env), s'))
    (real : is_dry_run env ≡ false) where
  watched : (ids : List ResourceId) → any_changed env ids ≡ any (changed_in outs) ids
  watched ids =
      any_changed-run_levels (backends H) (batchers H) decimal plan schedule levels start env outs s
        s' ids fresh ran

  -- In a run that writes and began with nothing recorded, a command with triggers and a program
  -- runs it exactly when an outcome of an earlier level says that
  -- one of them changed. Otherwise it reports no change and leaves the host alone.
  pub command-triggered :
      (c : Command) (program : String) (args : List String) (triggers : List ResourceId)
      (t : H.State)
      → c.argv ≡ program ∷ args
      → c.trigger_on ≡ some triggers
      → Command.converge_one H c env t
        ≡ (if any (changed_in outs) triggers then Command.run_argv H c t else (ok changed_no, t))
  unfolding Command.converge_one
  command-triggered c program args triggers t e watch =
      rw (← watched triggers) (command_argv H c c.argv program args env triggers t e watch real)

  -- In a run that writes and began with nothing recorded, a unit that is to run, and that
  -- systemctl says is enabled and active without a change of the host, is restarted exactly when an outcome of an
  -- earlier level says that something of `restart_on` changed. Otherwise it is left alone.
  pub service-restarted :
      (v : Service) (t : H.State)
      → v.started ≡ true
      → systemctl_status H "is-enabled" v.name t ≡ (ok true, t)
      → systemctl_status H "is-active" v.name t ≡ (ok true, t)
      → Service.converge_one H v env t ≡ (
          if any (changed_in outs) v.restart_on
          then (run_systemctl H ("restart" ∷ v.name ∷ []) >> pure changed_yes) t
          else (ok changed_no, t))
  unfolding Service.converge_one
  service-restarted v t started enabled active =
      ground (arith, watched v.restart_on, started, enabled, active, real)
