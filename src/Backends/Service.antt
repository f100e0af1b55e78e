-- ===== src/Backends/Service.antt =====
-- src/backends/service.rs
use ansible_playbooks.Common.{
  String, ◌<>◌, Bool, true, false, not, ◌&&◌, List, [], ◌∷◌, if◌then◌else◌,
}
use ansible_playbooks.Common.Results.{Action, pure, throw, ◌>>=◌, ◌>>◌}
use ansible_playbooks.Common.Text.{trim, join}
use ansible_playbooks.Env.{Env, is_dry_run, any_changed}
use ansible_playbooks.Error.{BackendError, backend_error}
use ansible_playbooks.Resource.Ids.{ResourceId, Skip, Changed, changed_yes, changed_no}
use ansible_playbooks.Host.{Host, command, attempt_foreign}

pub record Service : Type 0 where
  pub name : String
  pub enabled : Bool
  pub started : Bool
  pub restart_on : List ResourceId
  pub deps : List ResourceId
  pub skip_when : Skip

abbrev pub id_hint : Service → String
id_hint v = "service:" <> v.name

module _ (H : Host) where
  unfoldable pub systemctl_status : String → String → Action H.State BackendError Bool
  systemctl_status verb name =
      attempt_foreign "service" ("spawn `systemctl " <> verb <> " " <> name <> "`")
        (H.spawn (command ("systemctl" ∷ verb ∷ name ∷ [])))
      >>= λ output. pure output.success

  unfoldable pub run_systemctl : List String → Action H.State BackendError (Unit {0})
  unfolding join trim
  run_systemctl args =
      attempt_foreign "service" ("spawn `systemctl " <> join " " args <> "`")
        (H.spawn (command ("systemctl" ∷ args)))
      >>= λ output.
          if output.success
          then pure tt
          else throw (
              backend_error "service"
                ("`systemctl " <> join " " args <> "` failed: " <> trim output.stderr))

  unfoldable pub enable_if : Bool → String → Action H.State BackendError (Unit {0})
  unfolding run_systemctl
  enable_if false name = pure tt
  enable_if true name = run_systemctl ("enable" ∷ name ∷ [])

  unfoldable pub restart_or_start :
      (needs_restart needs_start : Bool) → String → Action H.State BackendError (Unit {0})
  unfolding run_systemctl
  restart_or_start true needs_start name = run_systemctl ("restart" ∷ name ∷ [])
  restart_or_start false true name = run_systemctl ("start" ∷ name ∷ [])
  restart_or_start false false name = pure tt

  unfoldable pub converge_one : Service → Env → Action H.State BackendError Changed
  unfolding enable_if restart_or_start
  converge_one v env = do
    is_enabled ← systemctl_status "is-enabled" v.name
    is_active ← systemctl_status "is-active" v.name
    let needs_enable = v.enabled && not is_enabled
    let needs_start = v.started && not is_active
    let needs_restart = v.started && is_active && any_changed env v.restart_on
    if not needs_enable && not needs_start && not needs_restart
        then pure changed_no
        else (if is_dry_run env
            then pure changed_yes
            else (enable_if needs_enable v.name
                >> restart_or_start needs_restart needs_start v.name
                >> pure changed_yes))
