-- ===== src/Bundles/Pip.antt =====
-- src/bundles/pip.rs
use ansible_playbooks.Common.{[], ◌∷◌}
use ansible_playbooks.Resource.Ids.{ResourceId}
use ansible_playbooks.Backends.Registry.{Resource}
use ansible_playbooks.Backends.Defaults.{default_apt_package, default_marker}
use ansible_playbooks.Bundles.{Setting, Build, ◌>>=◌, add, each, memoized}
use ansible_playbooks.Bundles.Apt.{apt}

unfoldable pub build : Setting → Build ResourceId
build s = do
  apt_ready ← apt s
  pkg_ids ←
      each
        (λ name. add (
          Resource.apt_package (record default_apt_package { name = name; deps = apt_ready ∷ [] })))
        ("python3-pip" ∷ "python3-virtualenv" ∷ [])
  add (Resource.marker (record default_marker { name = "pip:ready"; deps = pkg_ids }))

-- `Context::pip`
unfoldable pub pip : Setting → Build ResourceId
pip s = memoized "pip" (build s)
