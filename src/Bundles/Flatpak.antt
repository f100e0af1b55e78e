-- ===== src/Bundles/Flatpak.antt =====
-- src/bundles/flatpak.rs
use ansible_playbooks.Common.{[], ◌∷◌}
use ansible_playbooks.Resource.Ids.{ResourceId}
use ansible_playbooks.Backends.Registry.{Resource}
use ansible_playbooks.Backends.Defaults.{default_apt_package, default_command, default_marker}
use ansible_playbooks.Bundles.{Setting, Build, ◌>>=◌, add, memoized}
use ansible_playbooks.Bundles.Apt.{apt}

unfoldable pub build : Setting → Build ResourceId
build s = do
  apt_ready ← apt s
  pkg ← add (
      Resource.apt_package (record default_apt_package { name = "flatpak"; deps = apt_ready ∷ [] }))
  flathub ← add (
      Resource.command (record default_command {
        name = "flatpak remote-add flathub";
        argv =
            "flatpak" ∷ "remote-add" ∷ "--if-not-exists" ∷ "flathub"
            ∷ "https://dl.flathub.org/repo/flathub.flatpakrepo" ∷ [];
        deps = pkg ∷ [];
      }))
  add (
      Resource.marker (record default_marker { name = "flatpak:ready"; deps = pkg ∷ flathub ∷ [] }))

-- `Context::flatpak`
unfoldable pub flatpak : Setting → Build ResourceId
flatpak s = memoized "flatpak" (build s)
