-- ===== src/Backends/Marker.antt =====
-- src/backends/marker.rs
use ansible_playbooks.Common.{String, ◌<>◌, List}
use ansible_playbooks.Common.Results.{Action, pure}
use ansible_playbooks.Env.{Env}
use ansible_playbooks.Error.{BackendError}
use ansible_playbooks.Resource.Ids.{ResourceId, Skip, Changed, changed_no}
use ansible_playbooks.Host.{Host}

pub record Marker : Type 0 where
  pub name : String
  pub deps : List ResourceId
  pub skip_when : Skip

abbrev pub id_hint : Marker → String
id_hint m = "marker:" <> m.name

unfoldable pub converge_one : (H : Host) → Marker → Env → Action H.State BackendError Changed
converge_one H m env = pure changed_no
