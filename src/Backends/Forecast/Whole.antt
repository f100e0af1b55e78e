-- ===== src/Backends/Forecast/Whole.antt =====
-- All backends together.
use ansible_playbooks.Common.{inl, inr, ◌≡◌, false, arith}
use ansible_playbooks.Common.Results.{Result-cases, ok}
use ansible_playbooks.Env.{Env, is_dry_run, with_run_mode, dry_run}
use ansible_playbooks.Resource.Ids.{Changed}
use ansible_playbooks.Host.{Host}
use ansible_playbooks.Backends.File
use ansible_playbooks.Backends.File.{File}
use ansible_playbooks.Backends.AptRepo
use ansible_playbooks.Backends.Marker
use ansible_playbooks.Backends.SystemdUnit
use ansible_playbooks.Backends.SystemdUnit.{SystemdUnit}
use ansible_playbooks.Backends.Forecast.{Forecasts}
use ansible_playbooks.Backends.Forecast.Files.{
  file-Forecasts, directory-Forecasts, symlink-Forecasts, download-Forecasts,
  line_in_file-Forecasts, absent_file-Forecasts,
}
use ansible_playbooks.Backends.Forecast.Processes.{
  command-Forecasts, service-Forecasts, user-Forecasts, apt_package-Forecasts,
  absent_apt_package-Forecasts,
}
use ansible_playbooks.Backends.Registry.{
  Resource, apt_package, absent_apt_package, apt_repo, command, directory, download, file,
  absent_file, line_in_file, marker, service, symlink, systemd_unit, user, converge_one,
}

module _ (H : Host) (env : Env) (real : is_dry_run env ≡ false) where
  -- The reload can only fail, and a dry run has none, whatever the state.
  reload_after-announced :
      (said c : Changed) (s t : H.State)
      → (SystemdUnit.reload_after H said env s).0 ≡ ok c
      → (SystemdUnit.reload_after H said (with_run_mode env dry_run) t).0 ≡ ok c
  unfolding SystemdUnit.reload_after is_dry_run with_run_mode
  reload_after-announced said c s t e = ground arith

  systemd_unit-Forecasts :
      (u : SystemdUnit)
      → Forecasts
          (SystemdUnit.converge_one H u env)
          (SystemdUnit.converge_one H u (with_run_mode env dry_run))
  unfolding SystemdUnit.converge_one
  systemd_unit-Forecasts u s c e =
      elim (Result-cases (File.converge_one H (SystemdUnit.unit_file u) env s).0) [
        | inl (said, first) ↦
            let s₁ = (File.converge_one H (SystemdUnit.unit_file u) env s).1 in
            let t₁ =
              (File.converge_one H (SystemdUnit.unit_file u) (with_run_mode env dry_run) s).1 in
            let told = file-Forecasts H env real (SystemdUnit.unit_file u) s said first in
            ground (arith, first, told, reload_after-announced said c s₁ t₁)
        | inr (x, failed) ↦ absurd (ground (arith, failed))
      ]

  -- Whatever a resource reports when it converges in a run that writes, a dry run on the same host announces: a run
  -- that succeeds never reports a change that the dry run has not announced, nor the reverse.
  pub converge_one-announced :
      (r : Resource) (s : H.State) (c : Changed)
      → (converge_one H r env s).0 ≡ ok c
      → (converge_one H r (with_run_mode env dry_run) s).0 ≡ ok c
  unfolding converge_one AptRepo.converge_one Marker.converge_one
  converge_one-announced (apt_package r) = apt_package-Forecasts H env real r
  converge_one-announced (absent_apt_package r) = absent_apt_package-Forecasts H env real r
  converge_one-announced (command r) = command-Forecasts H env real r
  converge_one-announced (directory r) = directory-Forecasts H env real r
  converge_one-announced (download r) = download-Forecasts H env real r
  converge_one-announced (file r) = file-Forecasts H env real r
  converge_one-announced (absent_file r) = absent_file-Forecasts H env real r
  converge_one-announced (line_in_file r) = line_in_file-Forecasts H env real r
  converge_one-announced (service r) = service-Forecasts H env real r
  converge_one-announced (symlink r) = symlink-Forecasts H env real r
  converge_one-announced (user r) = user-Forecasts H env real r
  converge_one-announced (apt_repo r) = file-Forecasts H env real (AptRepo.list_file r)
  converge_one-announced (marker r) = λ s c e. e
  converge_one-announced (systemd_unit r) = systemd_unit-Forecasts r
