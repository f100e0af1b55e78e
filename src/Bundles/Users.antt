-- ===== src/Bundles/Users.antt =====
-- src/bundles/users.rs
use ansible_playbooks.Common.{
  ℕ, String, ◌<>◌, true, str_eq, Option, none, some, List, [], ◌∷◌, ◌++◌, if◌then◌else◌,
}
use ansible_playbooks.Resource.Ids.{ResourceId, in_container}
use ansible_playbooks.Backends.Registry.{Resource}
use ansible_playbooks.Backends.Defaults.{
  default_directory, default_marker, default_service, default_user,
}
use ansible_playbooks.Bundles.{Setting, Build, pure, ◌>>=◌, add, each, memoized}
use ansible_playbooks.Common.{flatten}
use ansible_playbooks.Common.Text.{decimal}
use ansible_playbooks.Host.{FilePath}
use ansible_playbooks.Config.{UserSpec}

abbrev pub shell_or_bash : Option FilePath → Option FilePath
shell_or_bash none = some "/bin/bash"
shell_or_bash (some shell) = some shell

unfoldable pub groups_of : UserSpec → List String
groups_of spec =
    ("audio" ∷ "cdrom" ∷ "dip" ∷ "plugdev" ∷ "video" ∷ "disk" ∷ "nix-users" ∷ "dialout" ∷ [])
    ++ ((if spec.admin then "sudo" ∷ [] else []) ++ spec.groups)

unfoldable pub ownership_options : Option ℕ → String
ownership_options none = "mode=1777"
ownership_options (some uid) = "mode=0700,uid=" <> decimal uid <> ",gid=" <> decimal uid

-- The tmpfs at ~/.cache.
unfoldable pub add_mount : String → UserSpec → ResourceId → Build (List ResourceId)
add_mount name spec user_id = do
  let unit_name = "home-" <> name <> "-.cache.mount"
  unit_id ← add (
      Resource.systemd_unit (record {
        name = unit_name;
        content =
            ("[Unit]\n"
              <> "Description=Mount tmpfs to /home/"
              <> name
              <> "/.cache\n"
              <> "\n"
              <> "[Mount]\n"
              <> "Where=/home/"
              <> name
              <> "/.cache\n"
              <> "Options=defaults,noatime,nodiratime,nosuid,nodev,"
              <> ownership_options spec.uid
              <> "\n"
              <> "What=tmpfs\n"
              <> "Type=tmpfs\n"
              <> "\n"
              <> "[Install]\n"
              <> "WantedBy=multi-user.target\n");
        deps = user_id ∷ [];
        skip_when = in_container;
      }))
  svc_id ← add (
      Resource.service (record default_service {
        name = unit_name;
        enabled = true;
        started = true;
        deps = unit_id ∷ [];
        skip_when = in_container;
      }))
  pure (unit_id ∷ svc_id ∷ [])

unfoldable pub add_home : String → UserSpec → ResourceId → Option FilePath → Build (List ResourceId)
add_home name spec user_id none = pure []
add_home name spec user_id (some home) = do
  local ← add (
      Resource.directory (record default_directory {
        path = (home <> "/.local");
        owner = some (name);
        deps = user_id ∷ [];
      }))
  config ← add (
      Resource.directory (record default_directory {
        path = (home <> "/.config");
        owner = some (name);
        deps = user_id ∷ [];
      }))
  private ← add (
      Resource.directory (record default_directory {
        path = (home <> "/.local/private");
        mode = some 0o700;
        owner = some (name);
        deps = user_id ∷ [];
      }))
  mount ← if str_eq name "root" then pure [] else add_mount name spec user_id
  pure (local ∷ config ∷ private ∷ mount)

-- One round of the loop, with what it pushes on `all_resources`.
unfoldable pub add_user : String × UserSpec → Build (List ResourceId)
add_user (name, spec) = do
  user_id ← add (
      Resource.user (record default_user {
        name = name;
        uid = spec.uid;
        comment = spec.comment;
        home = spec.home;
        shell = shell_or_bash spec.shell;
        groups = groups_of spec;
        password_hash = spec.password;
        create_home = true;
      }))
  rest ← add_home name spec user_id spec.home
  pure (user_id ∷ rest)

unfoldable pub build : Setting → Build ResourceId
build s = do
  rounds ← each add_user s.config.users
  let all_resources = flatten rounds
  add (Resource.marker (record default_marker { name = "users:ready"; deps = all_resources }))

-- `Context::users`
unfoldable pub users : Setting → Build ResourceId
users s = memoized "users" (build s)
