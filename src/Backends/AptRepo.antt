-- ===== src/Backends/AptRepo.antt =====
-- src/backends/apt_repo.rs
use ansible_playbooks.Common.{String, ◌<>◌, List, [], some, none}
use ansible_playbooks.Common.Results.{Action}
use ansible_playbooks.Env.{Env}
use ansible_playbooks.Error.{BackendError}
use ansible_playbooks.Resource.Ids.{ResourceId, Skip, never, Changed}
use ansible_playbooks.Host.{Host}
use ansible_playbooks.Backends.File
use ansible_playbooks.Backends.File.{File}

pub record AptRepo : Type 0 where
  pub name : String
  pub list_content : String
  pub deps : List ResourceId
  pub skip_when : Skip

abbrev pub id_hint : AptRepo → String
id_hint r = "apt-repo:" <> r.name

abbrev pub list_file : AptRepo → File
list_file r = record {
  path = "/etc/apt/sources.list.d/" <> r.name <> ".list";
  content = r.list_content;
  mode = some 0o644;
  owner = none;
  group = none;
  deps = [];
  skip_when = never;
}

unfoldable pub converge_one : (H : Host) → AptRepo → Env → Action H.State BackendError Changed
unfolding File.converge_one
converge_one H r env = File.converge_one H (list_file r) env
