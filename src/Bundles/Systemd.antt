-- ===== src/Bundles/Systemd.antt =====
-- src/bundles/systemd.rs
use ansible_playbooks.Common.{◌<>◌, true, some, [], ◌∷◌}
use ansible_playbooks.Resource.Ids.{ResourceId, in_container}
use ansible_playbooks.Backends.Registry.{Resource}
use ansible_playbooks.Backends.Defaults.{default_file, default_marker, default_service}
use ansible_playbooks.Bundles.{Setting, Build, ◌>>=◌, add, memoized}
use ansible_playbooks.Bundles.Apt.{apt}

unfoldable pub build : Setting → Build ResourceId
build s = do
  apt_ready ← apt s
  conf ← add (
      Resource.file (record default_file {
        path = "/etc/systemd/journald.conf";
        content =
            ("[Journal]\n" <> "# In-memory only, don't really need older logs\n"
              <> "Storage=volatile\n" <> "SystemMaxUse=10M\n");
        mode = some 0o644;
        deps = apt_ready ∷ [];
      }))
  service ← add (
      Resource.service (record default_service {
        name = "systemd-journald.service";
        started = true;
        restart_on = conf ∷ [];
        deps = conf ∷ [];
        skip_when = in_container;
      }))
  add (
      Resource.marker
        (record default_marker { name = "systemd:ready"; deps = conf ∷ service ∷ [] }))

-- `Context::systemd`
unfoldable pub systemd : Setting → Build ResourceId
systemd s = memoized "systemd" (build s)
