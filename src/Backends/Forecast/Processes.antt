-- ===== src/Backends/Forecast/Processes.antt =====
-- The backends that run child processes.
use ansible_playbooks.Common.{
  ◌≡◌, refl, ◌&&◌, not, filterb, Bool, true, false, String, Option, none, some, List, [], ◌∷◌,
  arith, if◌then◌else◌,
}
use ansible_playbooks.Common.Results.{pure, ◌>>◌}
use ansible_playbooks.Env.{Env, is_dry_run, with_run_mode, dry_run, any_changed}
use ansible_playbooks.Resource.Ids.{ResourceId, changed_yes}
use ansible_playbooks.Host.{Host}
use ansible_playbooks.Backends.AptPackage
use ansible_playbooks.Backends.AptPackage.{AptPackage}
use ansible_playbooks.Backends.AbsentAptPackage
use ansible_playbooks.Backends.AbsentAptPackage.{AbsentAptPackage}
use ansible_playbooks.Backends.Command
use ansible_playbooks.Backends.Command.{Command}
use ansible_playbooks.Backends.Service
use ansible_playbooks.Backends.Service.{Service}
use ansible_playbooks.Backends.User
use ansible_playbooks.Backends.User.{User}
use ansible_playbooks.Backends.Forecast.{
  Forecasts, SaysYes, >>=-Forecasts, >>=-SaysYes, pure-SaysYes, decided,
}

module _ (H : Host) (env : Env) (real : is_dry_run env ≡ false) where
  run_argv-SaysYes : (c : Command) → SaysYes (Command.run_argv H c)
  unfolding Command.run_argv
  run_argv-SaysYes c s r e = ground arith

  untriggered-announced :
      (triggers : Option (List ResourceId))
      → Command.untriggered triggers (with_run_mode env dry_run) ≡ Command.untriggered triggers env
  unfolding Command.untriggered any_changed with_run_mode
  untriggered-announced none = refl
  untriggered-announced (some triggers) = refl

  converge_argv-Forecasts :
      (c : Command) (argv : List String)
      → Forecasts
          (Command.converge_argv H c argv env)
          (Command.converge_argv H c argv (with_run_mode env dry_run))
  unfolding Command.converge_argv is_dry_run with_run_mode
  converge_argv-Forecasts c [] = λ s r e. e
  converge_argv-Forecasts c (program ∷ args) =
      λ s r e. ground (arith, untriggered-announced c.trigger_on, run_argv-SaysYes c s r)

  pub command-Forecasts :
      (c : Command)
      → Forecasts
          (Command.converge_one H c env)
          (Command.converge_one H c (with_run_mode env dry_run))
  unfolding Command.converge_one
  command-Forecasts c = converge_argv-Forecasts c c.argv

  pub service-Forecasts :
      (v : Service)
      → Forecasts
          (Service.converge_one H v env)
          (Service.converge_one H v (with_run_mode env dry_run))
  unfolding Service.converge_one any_changed with_run_mode
  service-Forecasts v =
      >>=-Forecasts (Service.systemctl_status H "is-enabled" v.name) _ _ λ is_enabled.
        >>=-Forecasts (Service.systemctl_status H "is-active" v.name) _ _ λ is_active.
          let needs_enable = v.enabled && not is_enabled in
          let needs_start = v.started && not is_active in
          let needs_restart = v.started && is_active && any_changed env v.restart_on in
          decided (not needs_enable && not needs_start && not needs_restart) env
            (Service.enable_if H needs_enable v.name
              >> Service.restart_or_start H needs_restart needs_start v.name
              >> pure changed_yes)
            real
            (>>=-SaysYes
              (Service.enable_if H needs_enable v.name
                >> Service.restart_or_start H needs_restart needs_start v.name)
              _ λ _. pure-SaysYes)

  adjust_user-SaysYes :
      (u : User) (exists : Bool) (groups : List String)
      → SaysYes (User.adjust_user H u exists groups)
  unfolding User.adjust_user
  adjust_user-SaysYes u false groups =
      >>=-SaysYes (User.create_user H u) _
        λ _. >>=-SaysYes (User.set_password_if H u.name u.password_hash) _ λ _. pure-SaysYes
  adjust_user-SaysYes u true groups =
      >>=-SaysYes
        (if User.is_empty_list groups then pure tt else User.add_to_groups H u.name groups) _
        λ _. pure-SaysYes

  pub user-Forecasts :
      (u : User)
      → Forecasts (User.converge_one H u env) (User.converge_one H u (with_run_mode env dry_run))
  unfolding User.converge_one
  user-Forecasts u = >>=-Forecasts (User.sense_user_exists H u.name) _ _ λ exists.
      >>=-Forecasts (User.current_groups H exists u.name) _ _ λ current.
        let groups = filterb (λ g. not (User.contains_name current g)) u.groups in
        decided (exists && User.is_empty_list groups) env (User.adjust_user H u exists groups) real
          (adjust_user-SaysYes u exists groups)

  pub apt_package-Forecasts :
      (p : AptPackage)
      → Forecasts
          (AptPackage.converge_one H p env)
          (AptPackage.converge_one H p (with_run_mode env dry_run))
  unfolding AptPackage.converge_one
  apt_package-Forecasts p = >>=-Forecasts (AptPackage.read_installed_packages H) _ _ λ installed.
      let install = AptPackage.run_apt_update H >> AptPackage.run_apt_install H (p.name ∷ []) in
      decided (User.contains_name installed p.name) env (install >> pure changed_yes) real
        (>>=-SaysYes install _ λ _. pure-SaysYes)

  pub absent_apt_package-Forecasts :
      (p : AbsentAptPackage)
      → Forecasts
          (AbsentAptPackage.converge_one H p env)
          (AbsentAptPackage.converge_one H p (with_run_mode env dry_run))
  unfolding AbsentAptPackage.converge_one is_dry_run with_run_mode
  absent_apt_package-Forecasts p =
      >>=-Forecasts (AptPackage.read_installed_packages H) _ _ λ installed s c e.
        let remove = AptPackage.run_apt_remove H (p.name ∷ []) in
        let says = >>=-SaysYes remove (λ _. pure changed_yes) (λ _. pure-SaysYes) s c in
        ground (arith, says)
