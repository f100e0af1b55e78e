-- ===== src/Backends/SystemdUnit/Reload.antt =====
-- `daemon-reload` after a unit file was written.
use ansible_playbooks.Common.{◌≡◌, refl, subst, sym, true, false, none, arith}
use ansible_playbooks.Common.Results.{ok, err}
use ansible_playbooks.Env.{Env, is_dry_run}
use ansible_playbooks.Error.{BackendError}
use ansible_playbooks.Resource.Ids.{changed_yes, changed_no}
use ansible_playbooks.Host.{Host}
use ansible_playbooks.Backends.Accounts.{lookup_named}
use ansible_playbooks.Backends.Views.{view, IsFileSystem}
use ansible_playbooks.Backends.File
use ansible_playbooks.Backends.File.Written.{matches_view}
use ansible_playbooks.Backends.File.Converge.{LooksUp, converge_one-matching, converge_one-matches}
use ansible_playbooks.Backends.SystemdUnit.{SystemdUnit, unit_file, run_daemon_reload, converge_one}

module _ (H : Host) (fs : IsFileSystem H) (u : SystemdUnit) (env : Env) where
  no_accounts : (s : H.State) → LooksUp H fs (unit_file u) none none s
  unfolding lookup_named
  no_accounts s = record { owner = refl; group = refl }

  -- The reload is run once the unit file has changed. If it fails, the run fails, and the next run
  -- finds the file in place: it reports no change and never reloads. The failing `systemctl` is
  -- assumed to leave the unit file alone.
  pub converge_one-reload_lost :
      (s written after : H.State) (e : BackendError)
      → is_dry_run env ≡ false
      → File.converge_one H (unit_file u) env s ≡ (ok changed_yes, written)
      → run_daemon_reload H written ≡ (err e, after)
      → view H (unit_file u).path after ≡ view H (unit_file u).path written
      → (converge_one H u env s ≡ (err e, after))
        × (converge_one H u env after ≡ (ok changed_no, after))
  unfolding converge_one
  converge_one-reload_lost s written after e real first failed alone =
      let good =
        converge_one-matches H fs (unit_file u) env none none s written changed_yes real
          (omega arith) (no_accounts s) first in
      let calm =
        converge_one-matching H fs (unit_file u) env none none after (no_accounts after)
          (subst (λ v. matches_view (unit_file u) none none v ≡ true) (sym alone) good) in
      (ground (arith, first, failed, real), ground (arith, calm))
