-- ===== src/Bundles/Virtualbox.antt =====
-- src/bundles/virtualbox.rs
use ansible_playbooks.Common.{String, List, [], ◌∷◌, ◌++◌, if◌then◌else◌}
use ansible_playbooks.Resource.Ids.{ResourceId}
use ansible_playbooks.Backends.Registry.{Resource}
use ansible_playbooks.Backends.Defaults.{default_apt_package, default_marker}
use ansible_playbooks.Bundles.{Setting, Build, ◌>>=◌, add, each, memoized}
use ansible_playbooks.Bundles.Apt.{apt}
use ansible_playbooks.Env.{Env}

unfoldable pub guest_names : Env → List String
guest_names env =
    if env.is_in_virtualbox then "virtualbox-guest-utils" ∷ "virtualbox-guest-x11" ∷ [] else []

unfoldable pub build : Setting → Build ResourceId
build s = do
  apt_ready ← apt s
  pkg ← add (
      Resource.apt_package
        (record default_apt_package { name = "virtualbox"; deps = apt_ready ∷ [] }))
  guests ←
      each
        (λ name. add (
          Resource.apt_package (record default_apt_package { name = name; deps = apt_ready ∷ [] })))
        (guest_names s.env)
  let all = (pkg ∷ []) ++ guests
  add (Resource.marker (record default_marker { name = "virtualbox:ready"; deps = all }))

-- `Context::virtualbox`
unfoldable pub virtualbox : Setting → Build ResourceId
virtualbox s = memoized "virtualbox" (build s)
