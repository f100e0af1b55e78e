-- ===== src/Tests/Backends.antt =====
-- The backends on the small host.
use ansible_playbooks.Common.{
  ℕ, ◌≡◌, refl, true, false, none, some, List, [], ◌∷◌, arith, any, if◌then◌else◌,
}
use ansible_playbooks.Common.Results.{ok, pure, ◌>>◌}
use ansible_playbooks.Common.Text.{decimal}
use ansible_playbooks.Env.{with_run_mode, Env, dry_run, is_dry_run}
use ansible_playbooks.Resource.Ids.{never, changed_yes, changed_no}
use ansible_playbooks.Plan.{Plan, Node}
use ansible_playbooks.Host.{Host}
use ansible_playbooks.Backends.Fs.{
  ensure_parent_directory, write_full, rename_over, set_mode, set_owner,
}
use ansible_playbooks.Backends.Accounts.{lookup_named}
use ansible_playbooks.Backends.File
use ansible_playbooks.Backends.File.{File}
use ansible_playbooks.Backends.File.Converge.{LooksUp, converge_one-again}
use ansible_playbooks.Backends.Command
use ansible_playbooks.Backends.Command.{Command}
use ansible_playbooks.Backends.Service
use ansible_playbooks.Backends.Service.{Service}
use ansible_playbooks.Backends.Registry.{Resource, backends}
use ansible_playbooks.Backends.Batchers.{batchers}
use ansible_playbooks.Backends.Notify.{command-triggered, service-restarted}
use ansible_playbooks.Executor.Report.{ResourceOutcome}
use ansible_playbooks.Executor.Run.{run_levels}
use ansible_playbooks.Executor.Run.Notify.{changed_in}
use ansible_playbooks.Backends.Registry
use ansible_playbooks.Backends.Forecast.Whole.{converge_one-announced}
use ansible_playbooks.System.{execute, execute-dry_run}
use ansible_playbooks.Tests.Toy.{Toy, empty, toy, toy-IsReadOnly, toy-IsFileSystem}
use ansible_playbooks.Tests.Fakes.{container, in_order}
use ansible_playbooks.Tests.Executor.{run_program}

abbrev pub host : Host
host = toy (λ _ _. false)

abbrev motd : File
motd = record {
  path = "/etc/motd";
  content = "hello\n";
  mode = some 0o644;
  owner = none;
  group = none;
  deps = [];
  skip_when = never;
}

abbrev make : Command
make = record {
  name = "make";
  argv = "make" ∷ [];
  trigger_on = none;
  deps = 0 ∷ [];
  skip_when = never;
}

abbrev docker : Service
docker = record {
  name = "docker";
  enabled = true;
  started = true;
  restart_on = 0 ∷ [];
  deps = 0 ∷ [];
  skip_when = never;
}

abbrev node_of : ℕ → Resource → Node Resource
node_of id r = record { id = id; resource = r }

abbrev small_plan : Plan Resource
small_plan =
    node_of 0 (Resource.file motd)
    ∷ node_of 1 (Resource.command make)
    ∷ node_of 2 (Resource.service docker)
    ∷ []

abbrev dry_env : Env
dry_env = record container { run_mode = dry_run }

execute-dry_run_example : (execute host small_plan in_order dry_env empty).1 ≡ empty
unfolding is_dry_run
execute-dry_run_example =
    execute-dry_run host (toy-IsReadOnly (λ _ _. false)) small_plan in_order dry_env refl empty

no_accounts : (s : Toy) → LooksUp host (toy-IsFileSystem (λ _ _. false)) motd none none s
unfolding lookup_named
no_accounts s = record { owner = refl; group = refl }

abbrev written : Toy
written = (File.converge_one host motd container empty).1

unfoldable motd_written : File.converge_one host motd container empty ≡ (ok changed_yes, written)
unfolding File.converge_one File.apply_drift File.read_existing_content File.replace
    ensure_parent_directory write_full set_mode set_owner rename_over is_dry_run lookup_named
motd_written = refl

converge_one-again_example :
    File.converge_one host motd container written ≡ (ok changed_no, written)
unfolding is_dry_run
converge_one-again_example =
    converge_one-again host (toy-IsFileSystem (λ _ _. false)) motd container none none empty written
      changed_yes refl (omega arith) (no_accounts empty) (no_accounts written) motd_written

-- The first level of `small_plan` wrote the file.
abbrev wrote : List ResourceOutcome
wrote = record { id = 0; id_hint = "file:/etc/motd"; changed = changed_yes } ∷ []

abbrev after_file : Env
after_file = record container { run_state = 0 ∷ [] }

first_level :
    run_levels
      (backends host)
      (batchers host)
      decimal
      small_plan
      in_order
      ((0 ∷ []) ∷ [])
      container
      []
      empty
    ≡ (ok (wrote, after_file), written)
unfolding run_program Registry.converge_one motd_written
first_level = refl

abbrev reload : Command
reload = record {
  name = "reload";
  argv = "systemctl" ∷ "reload" ∷ [];
  trigger_on = some (5 ∷ 0 ∷ []);
  deps = 0 ∷ [];
  skip_when = never;
}

command-triggered_example : Command.converge_one host reload after_file written ≡ (
    if any (changed_in wrote) (5 ∷ 0 ∷ [])
    then Command.run_argv host reload written
    else (ok changed_no, written))
unfolding is_dry_run
command-triggered_example =
    command-triggered host small_plan in_order ((0 ∷ []) ∷ []) container after_file wrote empty
      written refl first_level refl reload "systemctl" ("reload" ∷ []) (5 ∷ 0 ∷ []) written refl
      refl

service-restarted_example : Service.converge_one host docker after_file written ≡ (
    if any (changed_in wrote) (0 ∷ [])
    then (Service.run_systemctl host ("restart" ∷ "docker" ∷ []) >> pure changed_yes) written
    else (ok changed_no, written))
unfolding Service.systemctl_status is_dry_run
service-restarted_example =
    service-restarted host small_plan in_order ((0 ∷ []) ∷ []) container after_file wrote empty
      written refl first_level refl docker written refl refl refl

converge_one-announced_example :
    (Registry.converge_one host (Resource.file motd) (with_run_mode container dry_run) empty).0
    ≡ ok changed_yes
unfolding Registry.converge_one motd_written
converge_one-announced_example =
    converge_one-announced host container refl (Resource.file motd) empty changed_yes refl
