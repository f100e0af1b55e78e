-- ===== src/Backends/SystemdUnit.antt =====
-- src/backends/systemd_unit.rs
pub mod Reload
use ansible_playbooks.Common.{
  String, ◌<>◌, Bool, not, ◌&&◌, List, [], ◌∷◌, some, none, if◌then◌else◌,
}
use ansible_playbooks.Common.Results.{Action, pure, throw, ◌>>=◌, ◌>>◌}
use ansible_playbooks.Common.Text.{trim}
use ansible_playbooks.Env.{Env, is_dry_run}
use ansible_playbooks.Error.{BackendError, backend_error}
use ansible_playbooks.Resource.Ids.{ResourceId, Skip, never, Changed, changed_yes}
use ansible_playbooks.Host.{Host, command, attempt_foreign}
use ansible_playbooks.Executor.Report.{same_changed}
use ansible_playbooks.Backends.File
use ansible_playbooks.Backends.File.{File}

pub record SystemdUnit : Type 0 where
  pub name : String
  pub content : String
  pub deps : List ResourceId
  pub skip_when : Skip

abbrev pub id_hint : SystemdUnit → String
id_hint u = "systemd-unit:" <> u.name

abbrev pub unit_file : SystemdUnit → File
unit_file u = record {
  path = "/etc/systemd/system/" <> u.name;
  content = u.content;
  mode = some 0o644;
  owner = none;
  group = none;
  deps = [];
  skip_when = never;
}

module _ (H : Host) where
  unfoldable pub run_daemon_reload : Action H.State BackendError (Unit {0})
  unfolding trim
  run_daemon_reload =
      attempt_foreign "systemd-unit" "spawn `systemctl daemon-reload`"
        (H.spawn (command ("systemctl" ∷ "daemon-reload" ∷ [])))
      >>= λ output.
          if output.success
          then pure tt
          else throw (
              backend_error "systemd-unit"
                ("systemctl daemon-reload failed: " <> trim output.stderr))

  -- `if changed == Changed::Yes && !env.is_dry_run()`
  unfoldable pub reload_after : Changed → Env → Action H.State BackendError Changed
  reload_after changed env =
      if same_changed changed changed_yes && not (is_dry_run env)
      then run_daemon_reload >> pure changed
      else pure changed

  unfoldable pub converge_one : SystemdUnit → Env → Action H.State BackendError Changed
  unfolding reload_after
  converge_one u env = do changed ← File.converge_one H (unit_file u) env; reload_after changed env
