-- ===== src/Bundles/Tzdata.antt =====
-- src/bundles/tzdata.rs
use ansible_playbooks.Common.{some, [], ◌∷◌}
use ansible_playbooks.Resource.Ids.{ResourceId}
use ansible_playbooks.Backends.Registry.{Resource}
use ansible_playbooks.Backends.Defaults.{
  default_apt_package, default_file, default_marker, default_symlink,
}
use ansible_playbooks.Bundles.{Setting, Build, ◌>>=◌, add, memoized}
use ansible_playbooks.Bundles.Apt.{apt}

unfoldable pub build : Setting → Build ResourceId
build s = do
  apt_ready ← apt s
  pkg ←
      add (
        Resource.apt_package
          (record default_apt_package { name = "tzdata"; deps = apt_ready ∷ [] }))
  localtime ← add (
      Resource.symlink (record default_symlink {
        path = "/etc/localtime";
        target = "/usr/share/zoneinfo/Europe/London";
        deps = pkg ∷ [];
      }))
  timezone ← add (
      Resource.file (record default_file {
        path = "/etc/timezone";
        content = "Europe/London\n";
        mode = some 0o644;
        deps = pkg ∷ [];
      }))
  add (
      Resource.marker
        (record default_marker { name = "tzdata:ready"; deps = pkg ∷ localtime ∷ timezone ∷ [] }))

-- `Context::tzdata`
unfoldable pub tzdata : Setting → Build ResourceId
tzdata s = memoized "tzdata" (build s)
