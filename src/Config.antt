-- ===== src/Config.antt =====
-- src/config.rs. The YAML parser is a parameter of `load`.
pub mod Stems
use ansible_playbooks.Common.{ℕ, String, Bool, Option, List}
use ansible_playbooks.Common.Results.{Result, ok, err}
use ansible_playbooks.Error.{Cause, Error, config_load}
use ansible_playbooks.Host.{FilePath, Host}

-- The entries of `apt_repos`.
pub data AptRepo : Type 0 where
  ubuntu ubuntu_security ubuntu_updates ubuntu_backports ubuntu_proposed : AptRepo
  ppa_pv_safronov_backports : AptRepo

unfoldable pub stem : AptRepo → String
stem ubuntu = "ubuntu"
stem ubuntu_security = "ubuntu-security"
stem ubuntu_updates = "ubuntu-updates"
stem ubuntu_backports = "ubuntu-backports"
stem ubuntu_proposed = "ubuntu-proposed"
stem ppa_pv_safronov_backports = "ppa-pv-safronov-backports"

-- `*repo == AptRepo::PpaPvSafronovBackports`
abbrev pub is_ppa : AptRepo → Bool
is_ppa ppa_pv_safronov_backports = Bool.true
is_ppa _ = Bool.false

pub record IptablesPortsBySection : Type 0 where
  pub tcp : List ℕ
  pub udp : List ℕ

pub record IptablesPorts : Type 0 where
  pub remote : IptablesPortsBySection
  pub local : IptablesPortsBySection

pub record UserSpec : Type 0 where
  pub uid : Option ℕ
  pub comment : Option String
  pub home : Option FilePath
  pub shell : Option FilePath
  pub admin : Bool
  pub groups : List String
  pub password : Option String

-- A `BTreeMap` is the list of its entries, in the order of their keys.
pub record Config : Type 0 where
  pub users : List (String × UserSpec)
  pub nvidia : Bool
  pub system_vendor : Option String
  pub ca_cert : List (String × String)
  pub iptables_open_ports : IptablesPorts
  pub apt_repos : List AptRepo

module _ (H : Host) (from_yaml : String → Result Cause Config) where
  abbrev parsed : FilePath → Result Cause Config → Result Error Config
  parsed path (ok config) = ok config
  parsed path (err cause) = err (config_load path cause)

  unfoldable pub load : FilePath → H.State → Result Error Config
  load path s = elim (H.read_to_string path s) [
    | ok raw ↦ parsed path (from_yaml raw)
    | err e ↦ err (config_load path e.cause)
  ]
