-- ===== src/Bundles/Devserver.antt =====
-- src/bundles/devserver.rs
use ansible_playbooks.Common.{[], ◌∷◌}
use ansible_playbooks.Resource.Ids.{ResourceId}
use ansible_playbooks.Backends.Registry.{Resource}
use ansible_playbooks.Backends.Defaults.{default_marker}
use ansible_playbooks.Bundles.{Setting, Build, ◌>>=◌, add, memoized}
use ansible_playbooks.Bundles.UbuntuDevserver.{ubuntu_devserver}

unfoldable pub build : Setting → Build ResourceId
build s = do
  ubuntu_devserver_ready ← ubuntu_devserver s
  add (
      Resource.marker
        (record default_marker { name = "devserver:ready"; deps = ubuntu_devserver_ready ∷ [] }))

-- `Context::devserver`
unfoldable pub devserver : Setting → Build ResourceId
devserver s = memoized "devserver" (build s)
