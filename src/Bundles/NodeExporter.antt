-- ===== src/Bundles/NodeExporter.antt =====
-- src/bundles/node_exporter.rs
use ansible_playbooks.Common.{◌<>◌, true, [], ◌∷◌}
use ansible_playbooks.Resource.Ids.{ResourceId, in_container}
use ansible_playbooks.Backends.Registry.{Resource}
use ansible_playbooks.Bundles.{Setting, Build, ◌>>=◌, add, memoized}
use ansible_playbooks.Bundles.Docker.{docker}

unfoldable pub build : Setting → Build ResourceId
build s = do
  docker_ready ← docker s
  unit ← add (
      Resource.systemd_unit (record {
        name = "node_exporter.service";
        content =
            ("[Unit]\n" <> "Description=Node Exporter\n" <> "After=network.target\n" <> "\n"
              <> "[Service]\n" <> "Type=simple\n"
              <> "ExecStartPre=-/usr/bin/podman rm -f node_exporter\n"
              <> "ExecStart=/usr/bin/podman run --rm \\\n" <> "    --name node_exporter \\\n"
              <> "    --network host \\\n" <> "    --pid host \\\n"
              <> "    --volume /:/host:ro,rslave \\\n" <> "    --volume /run/udev:/run/udev:ro \\\n"
              <> "    quay.io/prometheus/node-exporter:latest \\\n" <> "    --path.rootfs=/host\n"
              <> "ExecStop=/usr/bin/podman stop node_exporter\n" <> "Restart=always\n"
              <> "RestartSec=10\n" <> "\n" <> "[Install]\n" <> "WantedBy=multi-user.target\n");
        deps = docker_ready ∷ [];
        skip_when = in_container;
      }))
  service ← add (
      Resource.service (record {
        name = "node_exporter.service";
        enabled = true;
        started = true;
        restart_on = unit ∷ [];
        deps = unit ∷ [];
        skip_when = in_container;
      }))
  add (
      Resource.marker (record {
        name = "node_exporter:ready";
        deps = unit ∷ service ∷ [];
        skip_when = in_container;
      }))

-- `Context::node_exporter`
unfoldable pub node_exporter : Setting → Build ResourceId
node_exporter s = memoized "node_exporter" (build s)
