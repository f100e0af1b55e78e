-- ===== src/Bundles/CommonDevserver.antt =====
-- src/bundles/common_devserver.rs
use ansible_playbooks.Common.{[], ◌∷◌}
use ansible_playbooks.Resource.Ids.{ResourceId}
use ansible_playbooks.Backends.Registry.{Resource}
use ansible_playbooks.Backends.Defaults.{default_marker}
use ansible_playbooks.Bundles.{Setting, Build, ◌>>=◌, add, memoized}
use ansible_playbooks.Bundles.Common.{common}
use ansible_playbooks.Bundles.Devserver.{devserver}

unfoldable pub build : Setting → Build ResourceId
build s = do
  common_ready ← common s
  devserver_ready ← devserver s
  add (
      Resource.marker (record default_marker {
        name = "common_devserver:ready";
        deps = common_ready ∷ devserver_ready ∷ [];
      }))

-- `Context::common_devserver`
unfoldable pub common_devserver : Setting → Build ResourceId
common_devserver s = memoized "common_devserver" (build s)
