-- ===== src/Backends/Forecast.antt =====
-- What a dry run announces, beside what the run that writes reports.
pub mod Files
pub mod Processes
pub mod Whole
pub mod Batches
use ansible_playbooks.Common.{
  ℕ, ◌≡◌, refl, ◌&&◌, not, ◌<>◌, Bool, true, false, String, Option, none, some, List, [], ◌∷◌,
  arith, if◌then◌else◌,
}
use ansible_playbooks.Common.Results.{Result, ok, err, Action, pure, and_then, ◌>>=◌, ◌>>◌}
use ansible_playbooks.Env.{Env, is_dry_run, with_run_mode, dry_run, any_changed}
use ansible_playbooks.Error.{BackendError}
use ansible_playbooks.Resource.Ids.{Changed, changed_yes, changed_no}
use ansible_playbooks.Host.{FilePath, Host, attempt}
use ansible_playbooks.Backends.Fs.{
  sibling_temp, is_some, ensure_parent_directory, write_full, rename_over, set_mode, set_owner,
}
use ansible_playbooks.Backends.Accounts.{lookup_uid, lookup_gid, lookup_named}
use ansible_playbooks.Backends.File
use ansible_playbooks.Backends.File.{File}
use ansible_playbooks.Backends.AptPackage
use ansible_playbooks.Backends.AptPackage.{AptPackage}
use ansible_playbooks.Backends.AbsentAptPackage
use ansible_playbooks.Backends.AbsentAptPackage.{AbsentAptPackage}
use ansible_playbooks.Backends.AptRepo
use ansible_playbooks.Backends.Command
use ansible_playbooks.Backends.Command.{Command}
use ansible_playbooks.Backends.Directory
use ansible_playbooks.Backends.Directory.{Directory}
use ansible_playbooks.Backends.Download
use ansible_playbooks.Backends.Download.{Download}
use ansible_playbooks.Backends.AbsentFile
use ansible_playbooks.Backends.AbsentFile.{AbsentFile}
use ansible_playbooks.Backends.LineInFile
use ansible_playbooks.Backends.LineInFile.{LineInFile}
use ansible_playbooks.Backends.Marker
use ansible_playbooks.Backends.Service
use ansible_playbooks.Backends.Service.{Service}
use ansible_playbooks.Backends.Symlink
use ansible_playbooks.Backends.Symlink.{Symlink}
use ansible_playbooks.Backends.SystemdUnit
use ansible_playbooks.Backends.SystemdUnit.{SystemdUnit}
use ansible_playbooks.Backends.User
use ansible_playbooks.Backends.User.{User}
use ansible_playbooks.Backends.Registry.{
  Resource, apt_package, absent_apt_package, apt_repo, command, directory, download, file,
  absent_file, line_in_file, marker, service, symlink, systemd_unit, user, converge_one,
}

module _ {S : Type 0} where
  -- What the action returns, if it succeeds, the forecast returns.
  abbrev pub Forecasts : {A : Type 0} (m forecast : Action S BackendError A) → Type 0
  Forecasts {A} m forecast = (s : S) (a : A) → (m s).0 ≡ ok a → (forecast s).0 ≡ ok a

  -- An action that succeeds reports a change.
  abbrev pub SaysYes : Action S BackendError Changed → Type 0
  SaysYes m = (s : S) (c : Changed) → (m s).0 ≡ ok c → c ≡ changed_yes

  and_then-Forecasts :
      {A B : Type 0} (r : Result BackendError A) (f g : A → Action S BackendError B)
      → ((a : A) → Forecasts (f a) (g a))
      → Forecasts (and_then r f) (and_then r g)
  and_then-Forecasts (ok a) f g h s b same = h a s b same
  and_then-Forecasts (err e) f g h s b same = cc

  pub >>=-Forecasts :
      {A B : Type 0} (m : Action S BackendError A) (f g : A → Action S BackendError B)
      → ((a : A) → Forecasts (f a) (g a))
      → Forecasts (m >>= f) (m >>= g)
  >>=-Forecasts m f g h s = and_then-Forecasts (m s).0 f g h (m s).1

  and_then-SaysYes :
      {A : Type 0} (r : Result BackendError A) (f : A → Action S BackendError Changed)
      → ((a : A) → SaysYes (f a))
      → SaysYes (and_then r f)
  and_then-SaysYes (ok a) f h s b same = h a s b same
  and_then-SaysYes (err e) f h s b same = cc

  pub >>=-SaysYes :
      {A : Type 0} (m : Action S BackendError A) (f : A → Action S BackendError Changed)
      → ((a : A) → SaysYes (f a))
      → SaysYes (m >>= f)
  >>=-SaysYes m f h s = and_then-SaysYes (m s).0 f h (m s).1

  pub pure-SaysYes : SaysYes (pure changed_yes)
  pure-SaysYes s c e = cc

  -- The end of most `converge_one`: nothing to do, or a change that a dry run only announces.
  pub decided :
      (good : Bool) (env : Env) (write : Action S BackendError Changed)
      → is_dry_run env ≡ false
      → SaysYes write
      → Forecasts
          (if good then pure changed_no else (if is_dry_run env then pure changed_yes else write))
          (if good
            then pure changed_no
            else (if is_dry_run (with_run_mode env dry_run) then pure changed_yes else write))
  unfolding is_dry_run with_run_mode
  decided good env write real says s c e = ground (arith, says s c)
