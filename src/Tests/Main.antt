-- ===== src/Tests/Main.antt =====
-- Plans, and runs of the program, for a small config on the small host.
use ansible_playbooks.Common.{
  ℕ, ◌≡◌, refl, true, false, none, some, if◌then◌else◌, str_eq, Bool, List, [], ◌∷◌, ◌++◌,
}
use ansible_playbooks.Common.Results.{Result, ok, err}
use ansible_playbooks.Config.{
  load, Config, UserSpec, IptablesPorts, ubuntu, ppa_pv_safronov_backports,
}
use ansible_playbooks.Config.Stems.{files_of, files_of-injective}
use ansible_playbooks.Backends.Registry.{backends}
use ansible_playbooks.Executor.Topo.{compute_topo_levels}
use ansible_playbooks.Bundles.{Setting, new, add, pure, ◌>>=◌}
use ansible_playbooks.Bundles.Apt.{add_repo}
use ansible_playbooks.Plan
use ansible_playbooks.Config.{stem}
use ansible_playbooks.Backends.User.{contains_name}
use ansible_playbooks.Bundles.Fits.{Grown, new-IsSound}
use ansible_playbooks.Main.{
  BundleName, Args, method, dispatch, dispatch_all, bundles_to_run, assemble, main,
}
use ansible_playbooks.Main.Soundness.{assemble-sorted, dispatch_all-Grown}
use ansible_playbooks.Main.Repeats.{method-again, assemble-again}
use ansible_playbooks.Main.Runs.{main-dry_run}
use ansible_playbooks.Main.Accounts.{users-HasAccount, default-HasAccount}
use ansible_playbooks.Main.Granted.{HasAccount}
use ansible_playbooks.Tests.Toy.{Toy, fresh_meta, empty, toy-IsReadOnly, toy-IsQuietProbe}
use ansible_playbooks.Env.Detect.{
  detect, detect_container, codename_of, first_of_keys, first_value, value_of, architecture_of,
  kernel_release_of, in_virtualbox_of,
}
use ansible_playbooks.Common.Text.{
  lines, finish_lines, split_by, strip_cr, strip_prefix, trim_matches, drop_front, drop_back,
  contains, trim, trim_start, trim_end, is_whitespace,
}
use ansible_playbooks.Tests.Fakes.{container, in_order}
use ansible_playbooks.Tests.Backends.{host}

abbrev ada : UserSpec
ada = record {
  uid = some 1000;
  comment = none;
  home = some "/home/ada";
  shell = none;
  admin = true;
  groups = "docker" ∷ [];
  password = none;
}

abbrev pub bob : UserSpec
bob = record {
  uid = none;
  comment = some "Bob";
  home = none;
  shell = some "/bin/zsh";
  admin = false;
  groups = [];
  password = none;
}

abbrev ports : IptablesPorts
ports = record {
  remote = record { tcp = 22 ∷ 80 ∷ 443 ∷ []; udp = 53 ∷ [] };
  local = record { tcp = 9323 ∷ []; udp = [] };
}

abbrev pub config : Config
config = record {
  users = ("ada", ada) ∷ ("bob", bob) ∷ [];
  nvidia = true;
  system_vendor = some "TUXEDO";
  ca_cert = [];
  iptables_open_ports = ports;
  apt_repos = ubuntu ∷ ppa_pv_safronov_backports ∷ [];
}

abbrev pub setting : Setting
setting = record { env = container; config = config; profile_d = some ("vte.sh" ∷ []) }

assemble-sorted_example :
    (levels : List (List ℕ)) × (compute_topo_levels
        (backends host)
        (assemble setting (BundleName.users ∷ []))
      ≡ ok levels)
assemble-sorted_example = assemble-sorted host setting (BundleName.users ∷ [])

dispatch_all-Grown_example :
    Grown new (dispatch_all setting (BundleName.users ∷ BundleName.docker ∷ []) new)
dispatch_all-Grown_example =
    dispatch_all-Grown setting (BundleName.users ∷ BundleName.docker ∷ []) new new-IsSound

method-again_example :
    method BundleName.users setting
      (dispatch_all setting (BundleName.docker ∷ []) (dispatch setting new BundleName.users))
    ≡ (
      (method BundleName.users setting new).0,
      dispatch_all setting (BundleName.docker ∷ []) (dispatch setting new BundleName.users),
    )
method-again_example =
    method-again setting BundleName.users (BundleName.docker ∷ []) new new-IsSound

assemble-again_example :
    assemble setting
      ([] ++ ((BundleName.users ∷ BundleName.docker ∷ []) ++ (BundleName.users ∷ [])))
    ≡ assemble setting ([] ++ (BundleName.users ∷ BundleName.docker ∷ []))
assemble-again_example = assemble-again setting [] (BundleName.docker ∷ []) BundleName.users

default-HasAccount_example : HasAccount "ada" ada (dispatch_all setting (bundles_to_run []) new)
default-HasAccount_example = default-HasAccount setting [] (("bob", bob) ∷ []) "ada" ada refl

users-HasAccount_example :
    HasAccount "bob" bob (dispatch_all setting (BundleName.users ∷ BundleName.docker ∷ []) new)
users-HasAccount_example =
    users-HasAccount setting (("ada", ada) ∷ []) [] "bob" bob refl (BundleName.docker ∷ [])

written_for_ubuntu :
    contains_name (files_of setting ubuntu) "/etc/apt/preferences.d/ubuntu.pref" ≡ true
unfolding add_repo add Plan.add pure ◌>>=◌ stem
written_for_ubuntu = refl

files_of-injective_example : ubuntu ≡ ubuntu
files_of-injective_example =
    files_of-injective setting ubuntu ubuntu "/etc/apt/preferences.d/ubuntu.pref" written_for_ubuntu
      written_for_ubuntu

abbrev is_ok : {E A : Type 0} → Result E A → Bool
is_ok (ok a) = true
is_ok (err e) = false

abbrev args : Args
args = record { bundles = []; config = "/etc/host.yaml"; dry_run = true }

-- A machine with an os-release and the config: the program gets to the run.
abbrev machine : Toy
machine = record empty {
  files = λ p.
      if str_eq p "/etc/os-release"
      then some ("VERSION_CODENAME=noble\n", fresh_meta)
      else (if str_eq p "/etc/host.yaml" then some ("users: {}\n", fresh_meta) else none);
}

machine_detected : is_ok (detect host "x86_64" machine).0 ≡ true
unfolding detect detect_container codename_of first_of_keys first_value value_of architecture_of
    kernel_release_of in_virtualbox_of lines finish_lines split_by strip_cr strip_prefix
    trim_matches drop_front drop_back contains trim trim_start trim_end is_whitespace
machine_detected = refl

machine_loaded : load host (λ raw. ok config) "/etc/host.yaml" machine ≡ ok config
unfolding load
machine_loaded = refl

main-dry_run_example :
    (main host "x86_64" (λ raw. ok config) (λ s. none) args in_order machine).1 ≡ machine
main-dry_run_example =
    main-dry_run host "x86_64" (λ raw. ok config) (λ s. none) (toy-IsReadOnly (λ _ _. false))
      (toy-IsQuietProbe (λ _ _. false)) args in_order machine refl
