-- ===== src/Resource/Ids.antt =====
-- src/resource.rs: the plain data that every other part names.
use ansible_playbooks.Common.{ℕ, String}

-- `struct ResourceId(pub usize)`
abbrev pub ResourceId : Type 0
ResourceId = ℕ

pub data Changed : Type 0 where
  changed_yes changed_no changed_skipped : Changed

pub data BatchFamily : Type 0 where
  apt_package absent_apt_package apt_repo systemctl_enable sysctl kernel_module : BatchFamily

unfoldable pub family_name : BatchFamily → String
family_name apt_package = "apt-package"
family_name absent_apt_package = "absent-apt-package"
family_name apt_repo = "apt-repo"
family_name systemctl_enable = "systemctl-enable"
family_name sysctl = "sysctl"
family_name kernel_module = "kernel-module"

pub data Skip : Type 0 where
  never in_container : Skip

pub Changed-discrete : Discrete Changed
Changed-discrete = hlevel

pub BatchFamily-discrete : Discrete BatchFamily
BatchFamily-discrete = hlevel
