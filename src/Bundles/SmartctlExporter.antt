-- ===== src/Bundles/SmartctlExporter.antt =====
-- src/bundles/smartctl_exporter.rs
use ansible_playbooks.Common.{◌<>◌, true, not, str_eq, [], ◌∷◌, if◌then◌else◌}
use ansible_playbooks.Resource.Ids.{ResourceId, in_container}
use ansible_playbooks.Backends.Registry.{Resource}
use ansible_playbooks.Backends.Defaults.{default_marker}
use ansible_playbooks.Bundles.{Setting, Build, ◌>>=◌, add, memoized}
use ansible_playbooks.Bundles.Docker.{docker}

unfoldable pub register : Setting → Build ResourceId
register s = do
  docker_ready ← docker s
  unit ← add (
      Resource.systemd_unit (record {
        name = "smartctl_exporter.service";
        content =
            ("[Unit]\n" <> "Description=Smartctl Exporter\n" <> "After=network.target\n" <> "\n"
              <> "[Service]\n" <> "Type=simple\n"
              <> "ExecStartPre=-/usr/bin/podman rm -f smartctl_exporter\n"
              <> "ExecStart=/usr/bin/podman run --rm \\\n" <> "    --name smartctl_exporter \\\n"
              <> "    --privileged \\\n" <> "    --user root \\\n" <> "    --publish 9633:9633 \\\n"
              <> "    quay.io/prometheuscommunity/smartctl-exporter\n"
              <> "ExecStop=/usr/bin/podman stop smartctl_exporter\n" <> "Restart=always\n"
              <> "RestartSec=10\n" <> "\n" <> "[Install]\n" <> "WantedBy=multi-user.target\n");
        deps = docker_ready ∷ [];
        skip_when = in_container;
      }))
  service ← add (
      Resource.service (record {
        name = "smartctl_exporter.service";
        enabled = true;
        started = true;
        restart_on = unit ∷ [];
        deps = unit ∷ [];
        skip_when = in_container;
      }))
  add (
      Resource.marker (record {
        name = "smartctl_exporter:ready";
        deps = unit ∷ service ∷ [];
        skip_when = in_container;
      }))

unfoldable pub build : Setting → Build ResourceId
build s =
    if not (str_eq s.env.architecture "x86_64")
    then add
        (Resource.marker (record default_marker { name = "smartctl_exporter:ready"; deps = [] }))
    else register s

-- `Context::smartctl_exporter`
unfoldable pub smartctl_exporter : Setting → Build ResourceId
smartctl_exporter s = memoized "smartctl_exporter" (build s)
