-- ===== src/Backends/Command.antt =====
-- src/backends/command.rs
use ansible_playbooks.Common.{
  String, ◌<>◌, Bool, false, not, Option, none, some, List, [], ◌∷◌, if◌then◌else◌,
}
use ansible_playbooks.Common.Results.{Action, pure, throw, ◌>>=◌}
use ansible_playbooks.Env.{Env, is_dry_run, any_changed}
use ansible_playbooks.Error.{BackendError, backend_error}
use ansible_playbooks.Resource.Ids.{ResourceId, Skip, Changed, changed_yes, changed_no}
use ansible_playbooks.Host.{Host, command, attempt_foreign}

pub record Command : Type 0 where
  pub name : String
  pub argv : List String
  pub trigger_on : Option (List ResourceId)
  pub deps : List ResourceId
  pub skip_when : Skip

abbrev pub id_hint : Command → String
id_hint c = "command:" <> c.name

-- Whether there is a list of triggers, none of which changed.
unfoldable pub untriggered : Option (List ResourceId) → Env → Bool
unfolding any_changed
untriggered none env = false
untriggered (some triggers) env = not (any_changed env triggers)

module _ (H : Host) where
  unfoldable pub run_argv : Command → Action H.State BackendError Changed
  run_argv c =
      attempt_foreign "command" ("spawn `" <> c.name <> "`") (H.spawn (command c.argv))
      >>= λ output.
          if output.success
          then pure changed_yes
          else throw (
              backend_error "command" (
                "command `" <> c.name <> "` exited with " <> output.code <> "; stderr:\n"
                <> output.stderr))

  -- `argv` is empty or not; the program is its first word.
  unfoldable pub converge_argv : Command → List String → Env → Action H.State BackendError Changed
  unfolding untriggered run_argv is_dry_run
  converge_argv c [] env =
      throw (backend_error "command" ("command `" <> c.name <> "` has empty argv"))
  converge_argv c (program ∷ args) env =
      if untriggered c.trigger_on env
      then pure changed_no
      else (if is_dry_run env then pure changed_yes else run_argv c)

  unfoldable pub converge_one : Command → Env → Action H.State BackendError Changed
  unfolding converge_argv
  converge_one c env = converge_argv c c.argv env
