-- ===== src/Backends/Batchers.antt =====
-- `AptPackageBatcher`, `AbsentAptPackageBatcher`, and what `Executor::new` registers.
pub mod Laws
pub mod Installs
use ansible_playbooks.Common.{
  String, ◌<>◌, Bool, true, false, not, Option, none, some, List, [], ◌∷◌, map, filterb,
  if◌then◌else◌,
}
use ansible_playbooks.Common.Results.{Result, ok, err, Action, pure, lift, ◌>>=◌, ◌>>◌}
use ansible_playbooks.Env.{Env, is_dry_run}
use ansible_playbooks.Error.{BackendError, backend_error}
use ansible_playbooks.Resource.{Batcher}
use ansible_playbooks.Resource.Ids.{Changed, changed_yes, changed_no, BatchFamily, family_name}
use ansible_playbooks.Host.{Host}
use ansible_playbooks.Backends.User.{contains_name, is_empty_list}
use ansible_playbooks.Backends.AptPackage.{
  AptPackage, read_installed_packages, run_apt_update, run_apt_install, run_apt_remove,
}
use ansible_playbooks.Backends.AbsentAptPackage.{AbsentAptPackage}
use ansible_playbooks.Backends.Registry.{Resource, apt_package, absent_apt_package, id_hint}

-- `downcast_ref::<AptPackage>()`, to the package's name.
abbrev pub as_package : Resource → Result BackendError String
as_package (apt_package p) = ok p.name
as_package r =
    err (
      backend_error "apt-package"
        ("batcher received non-AptPackage resource `" <> id_hint r <> "`"))

abbrev pub as_absent_package : Resource → Result BackendError String
as_absent_package (absent_apt_package p) = ok p.name
as_absent_package r = err (
    backend_error "absent-apt-package"
      ("batcher received non-AbsentAptPackage resource `" <> id_hint r <> "`"))

abbrev cons_ok : String → Result BackendError (List String) → Result BackendError (List String)
cons_ok name (ok names) = ok (name ∷ names)
cons_ok name (err e) = err e

-- `.map(downcast).collect::<Result<_, _>>()`: the first failure, or all names.
unfoldable pub collect :
    (Resource → Result BackendError String) → List Resource → Result BackendError (List String)
collect downcast [] = ok []
collect downcast (r ∷ rs) =
    let rest = collect downcast rs in
    elim (downcast r) [ ok name ↦ cons_ok name rest | err e ↦ err e ]

module _ (H : Host) where
  unfoldable pub install_missing : List String → Env → Action H.State BackendError (Unit {0})
  unfolding run_apt_update run_apt_install is_dry_run
  install_missing to_install env =
      if is_empty_list to_install
      then pure tt
      else (if is_dry_run env then pure tt else (run_apt_update H >> run_apt_install H to_install))

  unfoldable pub remove_present : List String → Env → Action H.State BackendError (Unit {0})
  unfolding run_apt_remove is_dry_run
  remove_present to_remove env =
      if is_empty_list to_remove
      then pure tt
      else (if is_dry_run env then pure tt else run_apt_remove H to_remove)

  unfoldable pub converge_packages :
      List Resource → Env → Action H.State BackendError (List Changed)
  unfolding collect read_installed_packages install_missing
  converge_packages resources env = do
    names ← lift (collect as_package resources)
    installed ← read_installed_packages H
    install_missing (filterb (λ name. not (contains_name installed name)) names) env
    pure (map (λ name. if contains_name installed name then changed_no else changed_yes) names)

  unfoldable pub converge_absent_packages :
      List Resource → Env → Action H.State BackendError (List Changed)
  unfolding collect read_installed_packages remove_present
  converge_absent_packages resources env = do
    names ← lift (collect as_absent_package resources)
    installed ← read_installed_packages H
    remove_present (filterb (λ name. contains_name installed name) names) env
    pure (map (λ name. if contains_name installed name then changed_yes else changed_no) names)

  abbrev pub package_batcher : Batcher H.State Resource
  package_batcher = record {
    family = family_name BatchFamily.apt_package;
    converge_batch = converge_packages;
  }

  abbrev pub absent_package_batcher : Batcher H.State Resource
  absent_package_batcher = record {
    family = family_name BatchFamily.absent_apt_package;
    converge_batch = converge_absent_packages;
  }

  -- `Executor::new`
  abbrev pub batchers : BatchFamily → Option (Batcher H.State Resource)
  batchers BatchFamily.apt_package = some package_batcher
  batchers BatchFamily.absent_apt_package = some absent_package_batcher
  batchers _ = none
