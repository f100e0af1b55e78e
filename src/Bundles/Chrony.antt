-- ===== src/Bundles/Chrony.antt =====
-- src/bundles/chrony.rs
use ansible_playbooks.Common.{true, [], ◌∷◌}
use ansible_playbooks.Resource.Ids.{ResourceId, in_container}
use ansible_playbooks.Backends.Registry.{Resource}
use ansible_playbooks.Backends.Defaults.{default_apt_package, default_marker, default_service}
use ansible_playbooks.Bundles.{Setting, Build, ◌>>=◌, add, memoized}
use ansible_playbooks.Bundles.Apt.{apt}

unfoldable pub build : Setting → Build ResourceId
build s = do
  apt_ready ← apt s
  pkg ←
      add (
        Resource.apt_package
          (record default_apt_package { name = "chrony"; deps = apt_ready ∷ [] }))
  service ← add (
      Resource.service (record default_service {
        name = "chrony.service";
        enabled = true;
        started = true;
        deps = pkg ∷ [];
        skip_when = in_container;
      }))
  add (Resource.marker (record default_marker { name = "chrony:ready"; deps = pkg ∷ service ∷ [] }))

-- `Context::chrony`
unfoldable pub chrony : Setting → Build ResourceId
chrony s = memoized "chrony" (build s)
