-- ===== src/Bundles/Nvim.antt =====
-- src/bundles/nvim.rs
use ansible_playbooks.Common.{[], ◌∷◌}
use ansible_playbooks.Resource.Ids.{ResourceId}
use ansible_playbooks.Backends.Registry.{Resource}
use ansible_playbooks.Backends.Defaults.{default_apt_package, default_marker}
use ansible_playbooks.Bundles.{Setting, Build, ◌>>=◌, add, memoized}
use ansible_playbooks.Bundles.Apt.{apt}

unfoldable pub build : Setting → Build ResourceId
build s = do
  apt_ready ← apt s
  pkg ←
      add (
        Resource.apt_package
          (record default_apt_package { name = "neovim"; deps = apt_ready ∷ [] }))
  add (Resource.marker (record default_marker { name = "nvim:ready"; deps = pkg ∷ [] }))

-- `Context::nvim`
unfoldable pub nvim : Setting → Build ResourceId
nvim s = memoized "nvim" (build s)
