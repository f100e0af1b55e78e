-- ===== src/Bundles/Apparmor.antt =====
-- src/bundles/apparmor.rs
use ansible_playbooks.Common.{◌<>◌, true, some, [], ◌∷◌}
use ansible_playbooks.Resource.Ids.{ResourceId, in_container}
use ansible_playbooks.Backends.Registry.{Resource}
use ansible_playbooks.Backends.Defaults.{
  default_apt_package, default_file, default_marker, default_service,
}
use ansible_playbooks.Bundles.{Setting, Build, ◌>>=◌, add, memoized}
use ansible_playbooks.Bundles.Apt.{apt}

unfoldable pub build : Setting → Build ResourceId
build s = do
  apt_ready ← apt s
  pkg ← add (
      Resource.apt_package
        (record default_apt_package { name = "apparmor"; deps = apt_ready ∷ [] }))
  bwrap_profile ← add (
      Resource.file (record default_file {
        path = "/etc/apparmor.d/bwrap";
        content =
            ("abi <abi/4.0>,\n" <> "include <tunables/global>\n" <> "\n"
              <> "profile bwrap /nix/store/*/bin/bwrap flags=(unconfined) {\n" <> "  userns,\n"
              <> "\n"
              <> "  # Site-specific additions and overrides. See local/README for details.\n"
              <> "  include if exists <local/bwrap>\n" <> "}\n");
        mode = some 0o666;
        deps = pkg ∷ [];
      }))
  service ← add (
      Resource.service (record default_service {
        name = "apparmor.service";
        enabled = true;
        started = true;
        deps = pkg ∷ bwrap_profile ∷ [];
        skip_when = in_container;
      }))
  add (
      Resource.marker (record default_marker {
        name = "apparmor:ready";
        deps = pkg ∷ bwrap_profile ∷ service ∷ [];
      }))

-- `Context::apparmor`
unfoldable pub apparmor : Setting → Build ResourceId
apparmor s = memoized "apparmor" (build s)
