-- ===== src/Tests/Failures.antt =====
-- Runs in which a child process fails.
use ansible_playbooks.Common.{
  ◌≡◌, refl, Bool, true, false, String, str_eq, none, some, List, [], ◌∷◌,
}
use ansible_playbooks.Common.Results.{ok, err}
use ansible_playbooks.Env.{is_dry_run}
use ansible_playbooks.Error.{BackendError, backend_error}
use ansible_playbooks.Resource.Ids.{never, changed_no}
use ansible_playbooks.Host.{Host}
use ansible_playbooks.Backends.Fs.{
  ensure_parent_directory, write_full, rename_over, set_mode, set_owner,
}
use ansible_playbooks.Backends.Accounts.{lookup_named}
use ansible_playbooks.Backends.File
use ansible_playbooks.Backends.File.{File}
use ansible_playbooks.Backends.SystemdUnit
use ansible_playbooks.Backends.SystemdUnit.{SystemdUnit, unit_file}
use ansible_playbooks.Backends.SystemdUnit.Reload.{converge_one-reload_lost}
use ansible_playbooks.Backends.User
use ansible_playbooks.Backends.User.{User}
use ansible_playbooks.Tests.Toy.{Toy, empty, toy, toy-IsFileSystem}
use ansible_playbooks.Tests.Fakes.{container}

-- A host on which one `systemctl` verb fails.
abbrev failing : String → List (List String) → List String → Bool
failing verb log [] = false
failing verb log (program ∷ []) = false
failing verb log (program ∷ first ∷ more) = str_eq first verb

abbrev no_reload : Host
no_reload = toy (failing "daemon-reload")

abbrev unit : SystemdUnit
unit = record { name = "a.service"; content = "[Unit]\n"; deps = []; skip_when = never }

abbrev unit_there : Toy
unit_there = (File.converge_one no_reload (unit_file unit) container empty).1

abbrev not_reloaded : BackendError
not_reloaded = backend_error "systemd-unit" "systemctl daemon-reload failed: no"

abbrev reloaded : Toy
reloaded = (SystemdUnit.run_daemon_reload no_reload unit_there).1

converge_one-reload_lost_example :
    (SystemdUnit.converge_one no_reload unit container empty ≡ (err not_reloaded, reloaded))
    × (SystemdUnit.converge_one no_reload unit container reloaded ≡ (ok changed_no, reloaded))
unfolding SystemdUnit.run_daemon_reload is_dry_run File.converge_one File.apply_drift
    File.read_existing_content File.replace ensure_parent_directory write_full set_mode set_owner
    rename_over lookup_named
converge_one-reload_lost_example =
    converge_one-reload_lost no_reload (toy-IsFileSystem (failing "daemon-reload")) unit container
      empty unit_there reloaded not_reloaded refl refl refl refl

-- A host without users, on which `useradd` succeeds and `usermod` fails.
abbrev no_user : List (List String) → List String → Bool
no_user log [] = false
no_user [] (program ∷ more) = str_eq program "getent"
no_user (argv ∷ log) (program ∷ more) = str_eq program "usermod"

abbrev user_host : Host
user_host = toy no_user

abbrev ada : User
ada = record {
  name = "ada";
  uid = none;
  comment = none;
  home = none;
  shell = some "/bin/zsh";
  groups = "docker" ∷ "sudo" ∷ [];
  password_hash = some "$6$x";
  create_home = true;
  system = false;
  deps = [];
  skip_when = never;
}

abbrev created : Toy
created = (User.create_user user_host ada empty).1

abbrev no_password : BackendError
no_password = backend_error "user" "usermod -p for `ada` failed: no"

abbrev unset : Toy
unset = (User.set_password user_host "ada" "$6$x" created).1

-- `usermod -p` fails in the run that creates the user, and the next run does nothing.
password_lost :
    (User.converge_one user_host ada container empty ≡ (err no_password, unset))
    × (User.converge_one user_host ada container unset ≡ (ok changed_no, unset))
unfolding User.sense_user_exists User.sense_supplementary_groups User.create_user User.set_password
    is_dry_run User.converge_one User.adjust_user
password_lost = (refl, refl)
