-- ===== src/Backends/Forecast/Batches.antt =====
-- The two batchers.
use ansible_playbooks.Common.{◌≡◌, not, String, some, List, arith, filterb, subst}
use ansible_playbooks.Common.Results.{Result, ok, err, Action, pure, lift, and_then, ◌>>◌}
use ansible_playbooks.Env.{Env, is_dry_run, with_run_mode, dry_run}
use ansible_playbooks.Error.{BackendError}
use ansible_playbooks.Resource.{Batcher}
use ansible_playbooks.Resource.Ids.{BatchFamily, Changed}
use ansible_playbooks.Host.{Host}
use ansible_playbooks.Backends.User.{contains_name}
use ansible_playbooks.Backends.AptPackage.{read_installed_packages}
use ansible_playbooks.Backends.Forecast.{Forecasts, >>=-Forecasts}
use ansible_playbooks.Backends.Registry.{Resource}
use ansible_playbooks.Backends.Batchers.{
  as_package, as_absent_package, collect, install_missing, remove_present, converge_packages,
  converge_absent_packages, package_batcher, absent_package_batcher, batchers,
}

-- The answers of a batch do not depend on what the work in between does, if it succeeds.
answer-Forecasts :
    {S A : Type 0} (r : Result BackendError (Unit {0})) (m : Action S BackendError (Unit {0}))
    (answer a : A) (s t : S)
    → (m s).0 ≡ ok tt
    → (and_then r (λ _. pure answer) t).0 ≡ ok a
    → ((m >> pure answer) s).0 ≡ ok a
answer-Forecasts (ok u) m answer a s t calm e = ground (arith, calm)
answer-Forecasts (err x) m answer a s t calm e = cc

module _ (H : Host) (env : Env) where
  install_missing-announced :
      (names : List String) (s : H.State)
      → (install_missing H names (with_run_mode env dry_run) s).0 ≡ ok tt
  unfolding install_missing is_dry_run with_run_mode
  install_missing-announced names s = ground arith

  remove_present-announced :
      (names : List String) (s : H.State)
      → (remove_present H names (with_run_mode env dry_run) s).0 ≡ ok tt
  unfolding remove_present is_dry_run with_run_mode
  remove_present-announced names s = ground arith

  converge_packages-Forecasts :
      (rs : List Resource)
      → Forecasts (converge_packages H rs env) (converge_packages H rs (with_run_mode env dry_run))
  unfolding converge_packages
  converge_packages-Forecasts rs = >>=-Forecasts (lift (collect as_package rs)) _ _ λ names.
      >>=-Forecasts (read_installed_packages H) _ _ λ installed s cs.
        let missing = filterb (λ name. not (contains_name installed name)) names in
        answer-Forecasts (install_missing H missing env s).0
          (install_missing H missing (with_run_mode env dry_run)) _ cs s
          (install_missing H missing env s).1 (install_missing-announced missing s)

  converge_absent_packages-Forecasts :
      (rs : List Resource)
      → Forecasts
          (converge_absent_packages H rs env)
          (converge_absent_packages H rs (with_run_mode env dry_run))
  unfolding converge_absent_packages
  converge_absent_packages-Forecasts rs =
      >>=-Forecasts (lift (collect as_absent_package rs)) _ _ λ names.
        >>=-Forecasts (read_installed_packages H) _ _ λ installed s cs.
          let present = filterb (λ name. contains_name installed name) names in
          answer-Forecasts (remove_present H present env s).0
            (remove_present H present (with_run_mode env dry_run)) _ cs s
            (remove_present H present env s).1 (remove_present-announced present s)

  -- What a registered batcher reports for its resources when it succeeds, in any run, a dry run on the same
  -- host announces.
  pub converge_batch-announced :
      (family : BatchFamily) (b : Batcher H.State Resource)
      → batchers H family ≡ some b
      → (rs : List Resource) (s : H.State) (cs : List Changed)
      → (b.converge_batch rs env s).0 ≡ ok cs
      → (b.converge_batch rs (with_run_mode env dry_run) s).0 ≡ ok cs
  converge_batch-announced BatchFamily.apt_package b e rs s cs =
      subst
        (λ (c : Batcher H.State Resource).
          (c.converge_batch rs env s).0 ≡ ok cs
          → (c.converge_batch rs (with_run_mode env dry_run) s).0 ≡ ok cs)
        (let same : package_batcher H ≡ b = cc in same) (converge_packages-Forecasts rs s cs)
  converge_batch-announced BatchFamily.absent_apt_package b e rs s cs =
      subst
        (λ (c : Batcher H.State Resource).
          (c.converge_batch rs env s).0 ≡ ok cs
          → (c.converge_batch rs (with_run_mode env dry_run) s).0 ≡ ok cs)
        (let same : absent_package_batcher H ≡ b = cc in same)
        (converge_absent_packages-Forecasts rs s cs)
  converge_batch-announced BatchFamily.apt_repo b e rs s cs = cc
  converge_batch-announced BatchFamily.systemctl_enable b e rs s cs = cc
  converge_batch-announced BatchFamily.sysctl b e rs s cs = cc
  converge_batch-announced BatchFamily.kernel_module b e rs s cs = cc
