-- ===== src/Bundles/Gpg.antt =====
-- src/bundles/gpg.rs
use ansible_playbooks.Common.{[], ◌∷◌}
use ansible_playbooks.Resource.Ids.{ResourceId}
use ansible_playbooks.Backends.Registry.{Resource}
use ansible_playbooks.Backends.Defaults.{default_apt_package, default_marker}
use ansible_playbooks.Bundles.{Setting, Build, ◌>>=◌, add, memoized}
use ansible_playbooks.Bundles.Apt.{apt}

unfoldable pub build : Setting → Build ResourceId
build s = do
  apt_ready ← apt s
  pkg ←
      add (
        Resource.apt_package (record default_apt_package { name = "gnupg"; deps = apt_ready ∷ [] }))
  add (Resource.marker (record default_marker { name = "gpg:ready"; deps = pkg ∷ [] }))

-- `Context::gpg`
unfoldable pub gpg : Setting → Build ResourceId
gpg s = memoized "gpg" (build s)
