-- ===== src/Main.antt =====
-- src/main.rs: the choice of bundles, the plan they make, and what the program exits with. The
-- arguments are parsed by `clap`; what is logged is left out.
pub mod Soundness
pub mod Repeats
pub mod Runs
pub mod Granted
pub mod Accounts
use ansible_playbooks.Common.{ℕ, String, Bool, Option, List, [], ◌∷◌, ◌++◌, if◌then◌else◌}
use ansible_playbooks.Common.Results.{Result, ok, err}
use ansible_playbooks.Env.{Env, apply, dry_run, with_run_mode}
use ansible_playbooks.Env.Detect.{detect}
use ansible_playbooks.Error.{Cause, Error}
use ansible_playbooks.Host.{Host, FilePath}
use ansible_playbooks.Resource.Ids.{ResourceId}
use ansible_playbooks.Config.{Config, load}
use ansible_playbooks.Plan.{Plan}
use ansible_playbooks.Backends.Registry.{Resource}
use ansible_playbooks.Executor.Report.{Report}
use ansible_playbooks.System.{execute}
use ansible_playbooks.Bundles.{Setting, Context, Build, new}
use ansible_playbooks.Bundles.ApcUps
use ansible_playbooks.Bundles.Apparmor
use ansible_playbooks.Bundles.Apt
use ansible_playbooks.Bundles.CaCert
use ansible_playbooks.Bundles.Chrony
use ansible_playbooks.Bundles.Common
use ansible_playbooks.Bundles.CommonDevserver
use ansible_playbooks.Bundles.CommonTools
use ansible_playbooks.Bundles.CommonTweaks
use ansible_playbooks.Bundles.Devserver
use ansible_playbooks.Bundles.Docker
use ansible_playbooks.Bundles.Et
use ansible_playbooks.Bundles.Flatpak
use ansible_playbooks.Bundles.Gpg
use ansible_playbooks.Bundles.Iptables
use ansible_playbooks.Bundles.Libvirtd
use ansible_playbooks.Bundles.Locales
use ansible_playbooks.Bundles.Lvm
use ansible_playbooks.Bundles.Nix
use ansible_playbooks.Bundles.NodeExporter
use ansible_playbooks.Bundles.Nvidia
use ansible_playbooks.Bundles.Nvim
use ansible_playbooks.Bundles.Pip
use ansible_playbooks.Bundles.SmartctlExporter
use ansible_playbooks.Bundles.Snapd
use ansible_playbooks.Bundles.Tailscale
use ansible_playbooks.Bundles.Tuxedo
use ansible_playbooks.Bundles.Tzdata
use ansible_playbooks.Bundles.UbuntuDevserver
use ansible_playbooks.Bundles.Users
use ansible_playbooks.Bundles.Virtualbox
use ansible_playbooks.Bundles.Yubico

pub data BundleName : Type 0 where
  apc_ups apparmor apt ca_cert chrony common : BundleName
  common_devserver common_tools common_tweaks devserver docker et : BundleName
  flatpak gpg iptables libvirtd locales lvm : BundleName
  nix node_exporter nvidia nvim pip smartctl_exporter : BundleName
  snapd tailscale tuxedo tzdata ubuntu_devserver users : BundleName
  virtualbox yubico : BundleName

pub record Args : Type 0 where
  pub bundles : List BundleName
  pub config : FilePath
  pub dry_run : Bool

pub data ExitCode : Type 0 where
  success failure : ExitCode

-- The method of `Context` that `dispatch` calls.
unfoldable pub method : BundleName → Setting → Build ResourceId
method BundleName.apc_ups = ApcUps.apc_ups
method BundleName.apparmor = Apparmor.apparmor
method BundleName.apt = Apt.apt
method BundleName.ca_cert = CaCert.ca_cert
method BundleName.chrony = Chrony.chrony
method BundleName.common = Common.common
method BundleName.common_devserver = CommonDevserver.common_devserver
method BundleName.common_tools = CommonTools.common_tools
method BundleName.common_tweaks = CommonTweaks.common_tweaks
method BundleName.devserver = Devserver.devserver
method BundleName.docker = Docker.docker
method BundleName.et = Et.et
method BundleName.flatpak = Flatpak.flatpak
method BundleName.gpg = Gpg.gpg
method BundleName.iptables = Iptables.iptables
method BundleName.libvirtd = Libvirtd.libvirtd
method BundleName.locales = Locales.locales
method BundleName.lvm = Lvm.lvm
method BundleName.nix = Nix.nix
method BundleName.node_exporter = NodeExporter.node_exporter
method BundleName.nvidia = Nvidia.nvidia
method BundleName.nvim = Nvim.nvim
method BundleName.pip = Pip.pip
method BundleName.smartctl_exporter = SmartctlExporter.smartctl_exporter
method BundleName.snapd = Snapd.snapd
method BundleName.tailscale = Tailscale.tailscale
method BundleName.tuxedo = Tuxedo.tuxedo
method BundleName.tzdata = Tzdata.tzdata
method BundleName.ubuntu_devserver = UbuntuDevserver.ubuntu_devserver
method BundleName.users = Users.users
method BundleName.virtualbox = Virtualbox.virtualbox
method BundleName.yubico = Yubico.yubico

unfoldable pub dispatch : Setting → Context → BundleName → Context
dispatch s c bundle = (method bundle s c).1

-- `for bundle in &bundles_to_run`
unfoldable pub dispatch_all : Setting → List BundleName → Context → Context
dispatch_all s [] c = c
dispatch_all s (bundle ∷ bundles) c = dispatch_all s bundles (dispatch s c bundle)

unfoldable pub bundles_to_run : List BundleName → List BundleName
bundles_to_run [] = BundleName.common_devserver ∷ []
bundles_to_run (bundle ∷ bundles) = bundle ∷ bundles

-- The plan that the bundles make.
unfoldable pub assemble : Setting → List BundleName → Plan Resource
assemble s bundles = (dispatch_all s (bundles_to_run bundles) new).plan

abbrev exit_code : Result Error Report → ExitCode
exit_code (ok report) = success
exit_code (err e) = failure

-- `arch` is `std::env::consts::ARCH`, `from_yaml` the parser of the config, and `profile_d` reads
-- the names in /etc/profile.d.
module _ (H : Host) (arch : String) (from_yaml : String → Result Cause Config)
    (profile_d : H.State → Option (List String)) where
  unfoldable pub run_plan :
      Args → (schedule : ℕ → ℕ → ℕ) → Env → Config → H.State → ExitCode × H.State
  run_plan args schedule env config s =
      let setting : Setting = record { env = env; config = config; profile_d = profile_d s } in
      let (r, s') = execute H (assemble setting args.bundles) schedule env s in (exit_code r, s')

  unfoldable pub with_env :
      Args → (schedule : ℕ → ℕ → ℕ) → Result Error Env → H.State → ExitCode × H.State
  with_env args schedule (err e) s = (failure, s)
  with_env args schedule (ok detected) s =
      let env = with_run_mode detected (if args.dry_run then dry_run else apply) in
      elim (load H from_yaml args.config s) [
        | ok config ↦ run_plan args schedule env config s
        | err e ↦ (failure, s)
      ]

  unfoldable pub main : Args → (schedule : ℕ → ℕ → ℕ) → H.State → ExitCode × H.State
  main args schedule s = let (detected, s') = detect H arch s in with_env args schedule detected s'
