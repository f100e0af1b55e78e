-- ===== src/Bundles/UbuntuDevserver.antt =====
-- src/bundles/ubuntu_devserver.rs
use ansible_playbooks.Common.{[], ◌∷◌}
use ansible_playbooks.Resource.Ids.{ResourceId}
use ansible_playbooks.Backends.Registry.{Resource}
use ansible_playbooks.Backends.Defaults.{default_marker}
use ansible_playbooks.Bundles.{Setting, Build, ◌>>=◌, add, memoized}
use ansible_playbooks.Bundles.Docker.{docker}
use ansible_playbooks.Bundles.Libvirtd.{libvirtd}
use ansible_playbooks.Bundles.Et.{et}
use ansible_playbooks.Bundles.Nvim.{nvim}
use ansible_playbooks.Bundles.NodeExporter.{node_exporter}
use ansible_playbooks.Bundles.SmartctlExporter.{smartctl_exporter}

unfoldable pub build : Setting → Build ResourceId
build s = do
  docker_ready ← docker s
  libvirtd_ready ← libvirtd s
  et_ready ← et s
  nvim_ready ← nvim s
  node_exporter_ready ← node_exporter s
  smartctl_exporter_ready ← smartctl_exporter s
  add (
      Resource.marker (record default_marker {
        name = "ubuntu_devserver:ready";
        deps =
            docker_ready ∷ libvirtd_ready ∷ et_ready ∷ nvim_ready ∷ node_exporter_ready
            ∷ smartctl_exporter_ready ∷ [];
      }))

-- `Context::ubuntu_devserver`
unfoldable pub ubuntu_devserver : Setting → Build ResourceId
ubuntu_devserver s = memoized "ubuntu_devserver" (build s)
