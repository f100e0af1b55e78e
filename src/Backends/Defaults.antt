-- ===== src/Backends/Defaults.antt =====
-- `Default::default()` of the resources in src/backends/, which each derive it.
use ansible_playbooks.Common.{false, none, []}
use ansible_playbooks.Resource.Ids.{never}
use ansible_playbooks.Backends.AptPackage.{AptPackage}
use ansible_playbooks.Backends.AbsentAptPackage.{AbsentAptPackage}
use ansible_playbooks.Backends.AptRepo.{AptRepo}
use ansible_playbooks.Backends.Command.{Command}
use ansible_playbooks.Backends.Directory.{Directory}
use ansible_playbooks.Backends.Download.{Download}
use ansible_playbooks.Backends.File.{File}
use ansible_playbooks.Backends.AbsentFile.{AbsentFile}
use ansible_playbooks.Backends.LineInFile.{LineInFile}
use ansible_playbooks.Backends.Marker.{Marker}
use ansible_playbooks.Backends.Service.{Service}
use ansible_playbooks.Backends.Symlink.{Symlink}
use ansible_playbooks.Backends.SystemdUnit.{SystemdUnit}
use ansible_playbooks.Backends.User.{User}

abbrev pub default_apt_package : AptPackage
default_apt_package = record { name = ""; deps = []; skip_when = never }

abbrev pub default_absent_apt_package : AbsentAptPackage
default_absent_apt_package = record { name = ""; deps = []; skip_when = never }

abbrev pub default_apt_repo : AptRepo
default_apt_repo = record { name = ""; list_content = ""; deps = []; skip_when = never }

abbrev pub default_command : Command
default_command = record { name = ""; argv = []; trigger_on = none; deps = []; skip_when = never }

abbrev pub default_directory : Directory
default_directory = record {
  path = "";
  mode = none;
  owner = none;
  group = none;
  deps = [];
  skip_when = never;
}

abbrev pub default_download : Download
default_download = record { url = ""; path = ""; mode = none; deps = []; skip_when = never }

abbrev pub default_file : File
default_file = record {
  path = "";
  content = "";
  mode = none;
  owner = none;
  group = none;
  deps = [];
  skip_when = never;
}

abbrev pub default_absent_file : AbsentFile
default_absent_file = record { path = ""; deps = []; skip_when = never }

abbrev pub default_line_in_file : LineInFile
default_line_in_file = record { path = ""; regex = ""; line = ""; deps = []; skip_when = never }

abbrev pub default_marker : Marker
default_marker = record { name = ""; deps = []; skip_when = never }

abbrev pub default_service : Service
default_service = record {
  name = "";
  enabled = false;
  started = false;
  restart_on = [];
  deps = [];
  skip_when = never;
}

abbrev pub default_symlink : Symlink
default_symlink = record { path = ""; target = ""; deps = []; skip_when = never }

abbrev pub default_systemd_unit : SystemdUnit
default_systemd_unit = record { name = ""; content = ""; deps = []; skip_when = never }

abbrev pub default_user : User
default_user = record {
  name = "";
  uid = none;
  comment = none;
  home = none;
  shell = none;
  groups = [];
  password_hash = none;
  create_home = false;
  system = false;
  deps = [];
  skip_when = never;
}
