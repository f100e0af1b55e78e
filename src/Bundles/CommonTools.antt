-- ===== src/Bundles/CommonTools.antt =====
-- src/bundles/common_tools.rs
use ansible_playbooks.Common.{String, str_eq, List, [], ◌∷◌, ◌++◌, if◌then◌else◌}
use ansible_playbooks.Resource.Ids.{ResourceId}
use ansible_playbooks.Backends.Registry.{Resource}
use ansible_playbooks.Backends.Defaults.{default_apt_package, default_marker}
use ansible_playbooks.Bundles.{Setting, Build, ◌>>=◌, add, each, memoized}
use ansible_playbooks.Bundles.Apt.{apt}
use ansible_playbooks.Bundles.Pip.{pip}
use ansible_playbooks.Bundles.Snapd.{snapd}
use ansible_playbooks.Bundles.Flatpak.{flatpak}
use ansible_playbooks.Bundles.Yubico.{yubico}
use ansible_playbooks.Bundles.Nix.{nix}
use ansible_playbooks.Env.{Env}

unfoldable pub package_names : Env → List String
package_names env =
    ("linux-tools-common" ∷ "uidmap" ∷ [])
    ++ (if str_eq env.architecture "x86_64"
        then "syslinux" ∷ "libsqlite3-dev" ∷ "sqlite3" ∷ []
        else [])

unfoldable pub build : Setting → Build ResourceId
build s = do
  apt_ready ← apt s
  pip_ready ← pip s
  snapd_ready ← snapd s
  flatpak_ready ← flatpak s
  yubico_ready ← yubico s
  nix_ready ← nix s
  pkg_ids ←
      each
        (λ name. add (
          Resource.apt_package (record default_apt_package { name = name; deps = apt_ready ∷ [] })))
        (package_names s.env)
  let all = pkg_ids ++ (pip_ready ∷ snapd_ready ∷ flatpak_ready ∷ yubico_ready ∷ nix_ready ∷ [])
  add (Resource.marker (record default_marker { name = "common_tools:ready"; deps = all }))

-- `Context::common_tools`
unfoldable pub common_tools : Setting → Build ResourceId
common_tools s = memoized "common_tools" (build s)
