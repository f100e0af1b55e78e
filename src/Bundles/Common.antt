-- ===== src/Bundles/Common.antt =====
-- src/bundles/common.rs
use ansible_playbooks.Common.{[], ◌∷◌}
use ansible_playbooks.Resource.Ids.{ResourceId}
use ansible_playbooks.Backends.Registry.{Resource}
use ansible_playbooks.Backends.Defaults.{default_marker}
use ansible_playbooks.Bundles.{Setting, Build, ◌>>=◌, add, memoized}
use ansible_playbooks.Bundles.CommonTweaks.{common_tweaks}
use ansible_playbooks.Bundles.CommonTools.{common_tools}

unfoldable pub build : Setting → Build ResourceId
build s = do
  common_tweaks_ready ← common_tweaks s
  common_tools_ready ← common_tools s
  add (
      Resource.marker (record default_marker {
        name = "common:ready";
        deps = common_tweaks_ready ∷ common_tools_ready ∷ [];
      }))

-- `Context::common`
unfoldable pub common : Setting → Build ResourceId
common s = memoized "common" (build s)
