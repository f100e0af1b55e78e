-- ===== src/Bundles/Nix.antt =====
-- src/bundles/nix.rs
use ansible_playbooks.Common.{[], ◌∷◌}
use ansible_playbooks.Resource.Ids.{ResourceId}
use ansible_playbooks.Backends.Registry.{Resource}
use ansible_playbooks.Backends.Defaults.{default_apt_package, default_marker}
use ansible_playbooks.Bundles.{Setting, Build, ◌>>=◌, add, memoized}
use ansible_playbooks.Bundles.Apt.{apt}

unfoldable pub build : Setting → Build ResourceId
build s = do
  apt_ready ← apt s
  pkg ← add (
      Resource.apt_package (record default_apt_package { name = "nix-bin"; deps = apt_ready ∷ [] }))
  add (Resource.marker (record default_marker { name = "nix:ready"; deps = pkg ∷ [] }))

-- `Context::nix`
unfoldable pub nix : Setting → Build ResourceId
nix s = memoized "nix" (build s)
