-- ===== src/Backends/Registry.antt =====
-- Every implementation of `Resource` under src/backends/, and the trait's methods by cases.
use ansible_playbooks.Common.{String, Option, none, some, List}
use ansible_playbooks.Common.Results.{Action}
use ansible_playbooks.Env.{Env}
use ansible_playbooks.Error.{BackendError}
use ansible_playbooks.Resource.{Trait}
use ansible_playbooks.Resource.Ids.{ResourceId, Skip, Changed, BatchFamily}
use ansible_playbooks.Host.{Host}
use ansible_playbooks.Backends.AptPackage
use ansible_playbooks.Backends.AptPackage.{AptPackage}
use ansible_playbooks.Backends.AbsentAptPackage
use ansible_playbooks.Backends.AbsentAptPackage.{AbsentAptPackage}
use ansible_playbooks.Backends.AptRepo
use ansible_playbooks.Backends.AptRepo.{AptRepo}
use ansible_playbooks.Backends.Command
use ansible_playbooks.Backends.Command.{Command}
use ansible_playbooks.Backends.Directory
use ansible_playbooks.Backends.Directory.{Directory}
use ansible_playbooks.Backends.Download
use ansible_playbooks.Backends.Download.{Download}
use ansible_playbooks.Backends.File
use ansible_playbooks.Backends.File.{File}
use ansible_playbooks.Backends.AbsentFile
use ansible_playbooks.Backends.AbsentFile.{AbsentFile}
use ansible_playbooks.Backends.LineInFile
use ansible_playbooks.Backends.LineInFile.{LineInFile}
use ansible_playbooks.Backends.Marker
use ansible_playbooks.Backends.Marker.{Marker}
use ansible_playbooks.Backends.Service
use ansible_playbooks.Backends.Service.{Service}
use ansible_playbooks.Backends.Symlink
use ansible_playbooks.Backends.Symlink.{Symlink}
use ansible_playbooks.Backends.SystemdUnit
use ansible_playbooks.Backends.SystemdUnit.{SystemdUnit}
use ansible_playbooks.Backends.User
use ansible_playbooks.Backends.User.{User}

pub data Resource : Type 0 where
  apt_package : AptPackage → Resource
  absent_apt_package : AbsentAptPackage → Resource
  apt_repo : AptRepo → Resource
  command : Command → Resource
  directory : Directory → Resource
  download : Download → Resource
  file : File → Resource
  absent_file : AbsentFile → Resource
  line_in_file : LineInFile → Resource
  marker : Marker → Resource
  service : Service → Resource
  symlink : Symlink → Resource
  systemd_unit : SystemdUnit → Resource
  user : User → Resource

abbrev pub id_hint : Resource → String
id_hint (apt_package r) = AptPackage.id_hint r
id_hint (absent_apt_package r) = AbsentAptPackage.id_hint r
id_hint (apt_repo r) = AptRepo.id_hint r
id_hint (command r) = Command.id_hint r
id_hint (directory r) = Directory.id_hint r
id_hint (download r) = Download.id_hint r
id_hint (file r) = File.id_hint r
id_hint (absent_file r) = AbsentFile.id_hint r
id_hint (line_in_file r) = LineInFile.id_hint r
id_hint (marker r) = Marker.id_hint r
id_hint (service r) = Service.id_hint r
id_hint (symlink r) = Symlink.id_hint r
id_hint (systemd_unit r) = SystemdUnit.id_hint r
id_hint (user r) = User.id_hint r

abbrev pub deps : Resource → List ResourceId
deps (apt_package r) = r.deps
deps (absent_apt_package r) = r.deps
deps (apt_repo r) = r.deps
deps (command r) = r.deps
deps (directory r) = r.deps
deps (download r) = r.deps
deps (file r) = r.deps
deps (absent_file r) = r.deps
deps (line_in_file r) = r.deps
deps (marker r) = r.deps
deps (service r) = r.deps
deps (symlink r) = r.deps
deps (systemd_unit r) = r.deps
deps (user r) = r.deps

abbrev pub skip_when : Resource → Skip
skip_when (apt_package r) = r.skip_when
skip_when (absent_apt_package r) = r.skip_when
skip_when (apt_repo r) = r.skip_when
skip_when (command r) = r.skip_when
skip_when (directory r) = r.skip_when
skip_when (download r) = r.skip_when
skip_when (file r) = r.skip_when
skip_when (absent_file r) = r.skip_when
skip_when (line_in_file r) = r.skip_when
skip_when (marker r) = r.skip_when
skip_when (service r) = r.skip_when
skip_when (symlink r) = r.skip_when
skip_when (systemd_unit r) = r.skip_when
skip_when (user r) = r.skip_when

-- The two apt backends override the default `None`.
abbrev pub batch_family : Resource → Option BatchFamily
batch_family (apt_package r) = some BatchFamily.apt_package
batch_family (absent_apt_package r) = some BatchFamily.absent_apt_package
batch_family _ = none

module _ (H : Host) where
  unfoldable pub converge_one : Resource → Env → Action H.State BackendError Changed
  converge_one (apt_package r) = AptPackage.converge_one H r
  converge_one (absent_apt_package r) = AbsentAptPackage.converge_one H r
  converge_one (apt_repo r) = AptRepo.converge_one H r
  converge_one (command r) = Command.converge_one H r
  converge_one (directory r) = Directory.converge_one H r
  converge_one (download r) = Download.converge_one H r
  converge_one (file r) = File.converge_one H r
  converge_one (absent_file r) = AbsentFile.converge_one H r
  converge_one (line_in_file r) = LineInFile.converge_one H r
  converge_one (marker r) = Marker.converge_one H r
  converge_one (service r) = Service.converge_one H r
  converge_one (symlink r) = Symlink.converge_one H r
  converge_one (systemd_unit r) = SystemdUnit.converge_one H r
  converge_one (user r) = User.converge_one H r

  abbrev pub backends : Trait H.State
  backends = record {
    Resource = Resource;
    id_hint = id_hint;
    deps = deps;
    skip_when = skip_when;
    batch_family = batch_family;
    converge_one = converge_one;
    join_error = H.join_error;
  }
