-- ===== src/Bundles/Libvirtd.antt =====
-- src/bundles/libvirtd.rs
use ansible_playbooks.Common.{true, [], ◌∷◌, ◌++◌}
use ansible_playbooks.Resource.Ids.{ResourceId, in_container}
use ansible_playbooks.Backends.Registry.{Resource}
use ansible_playbooks.Backends.Defaults.{default_apt_package, default_marker}
use ansible_playbooks.Bundles.{Setting, Build, ◌>>=◌, add, each, memoized}
use ansible_playbooks.Bundles.Apt.{apt}

unfoldable pub build : Setting → Build ResourceId
build s = do
  apt_ready ← apt s
  pkg_ids ←
      each
        (λ name. add (
          Resource.apt_package (record default_apt_package { name = name; deps = apt_ready ∷ [] })))
        ("qemu-system" ∷ "qemu-system-arm" ∷ "qemu-efi-aarch64" ∷ "qemu-utils" ∷ "libvirt-daemon"
          ∷ "libvirt-daemon-system" ∷ "uvtool" ∷ [])
  security_driver ← add (
      Resource.line_in_file (record {
        path = "/etc/libvirt/qemu.conf";
        regex = "^\\s*#?\\s*security_driver\\s*=.*";
        line = "security_driver = \"none\"";
        deps = pkg_ids;
        skip_when = in_container;
      }))
  let d = pkg_ids ++ (security_driver ∷ [])
  service ← add (
      Resource.service (record {
        name = "libvirtd.service";
        enabled = true;
        started = true;
        restart_on = security_driver ∷ [];
        deps = d;
        skip_when = in_container;
      }))
  let all = pkg_ids ++ ((security_driver ∷ []) ++ (service ∷ []))
  add (Resource.marker (record default_marker { name = "libvirtd:ready"; deps = all }))

-- `Context::libvirtd`
unfoldable pub libvirtd : Setting → Build ResourceId
libvirtd s = memoized "libvirtd" (build s)
