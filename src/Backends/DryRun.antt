-- ===== src/Backends/DryRun.antt =====
-- The backends of src/backends/ in a dry run.
use ansible_playbooks.Common.{
  ℕ, ◌≡◌, refl, String, Bool, true, false, Option, none, some, List, [], ◌∷◌, arith,
}
use ansible_playbooks.Common.Results.{Action, Keeps, >>=-Keeps, pure}
use ansible_playbooks.Env.{Env, is_dry_run}
use ansible_playbooks.Error.{BackendError}
use ansible_playbooks.Host.{Host, IsReadOnly}
use ansible_playbooks.Backends.Accounts.{lookup_uid, lookup_gid, lookup_named}
use ansible_playbooks.Backends.File
use ansible_playbooks.Backends.File.{File}
use ansible_playbooks.Backends.AptPackage
use ansible_playbooks.Backends.AptPackage.{AptPackage}
use ansible_playbooks.Backends.AbsentAptPackage
use ansible_playbooks.Backends.AbsentAptPackage.{AbsentAptPackage}
use ansible_playbooks.Backends.AptRepo
use ansible_playbooks.Backends.AptRepo.{AptRepo}
use ansible_playbooks.Backends.Command
use ansible_playbooks.Backends.Command.{Command}
use ansible_playbooks.Backends.Directory
use ansible_playbooks.Backends.Directory.{Directory}
use ansible_playbooks.Backends.Download
use ansible_playbooks.Backends.Download.{Download}
use ansible_playbooks.Backends.AbsentFile
use ansible_playbooks.Backends.AbsentFile.{AbsentFile}
use ansible_playbooks.Backends.LineInFile
use ansible_playbooks.Backends.LineInFile.{LineInFile}
use ansible_playbooks.Backends.Marker
use ansible_playbooks.Backends.Marker.{Marker}
use ansible_playbooks.Backends.Service
use ansible_playbooks.Backends.Service.{Service}
use ansible_playbooks.Backends.Symlink
use ansible_playbooks.Backends.Symlink.{Symlink}
use ansible_playbooks.Backends.SystemdUnit
use ansible_playbooks.Backends.SystemdUnit.{SystemdUnit}
use ansible_playbooks.Backends.User
use ansible_playbooks.Backends.User.{User}
use ansible_playbooks.Backends.Registry.{
  Resource, apt_package, absent_apt_package, apt_repo, command, directory, download, file,
  absent_file, line_in_file, marker, service, symlink, systemd_unit, user, converge_one,
}

module _ (H : Host) (quiet : IsReadOnly H) where
  lookup_uid-Keeps : (backend name : String) → Keeps (lookup_uid H backend name)
  unfolding lookup_uid
  lookup_uid-Keeps backend name s = ground (arith, quiet.getent ("passwd" ∷ name ∷ []) s)

  lookup_gid-Keeps : (backend name : String) → Keeps (lookup_gid H backend name)
  unfolding lookup_gid
  lookup_gid-Keeps backend name s = ground (arith, quiet.getent ("group" ∷ name ∷ []) s)

  lookup_named-Keeps :
      (look : String → Action H.State BackendError ℕ) (name : Option String)
      → ((n : String) → Keeps (look n))
      → Keeps (lookup_named look name)
  unfolding lookup_named
  lookup_named-Keeps look none h = λ s. refl
  lookup_named-Keeps look (some name) h =
      >>=-Keeps (look name) (λ n. pure (some n)) (h name) (λ n s. refl)

  file-Keeps : (f : File) (env : Env) → is_dry_run env ≡ true → Keeps (File.converge_one H f env)
  unfolding File.converge_one
  file-Keeps f env h =
      >>=-Keeps (lookup_named (lookup_uid H "file") f.owner) _
        (lookup_named-Keeps (lookup_uid H "file") f.owner (lookup_uid-Keeps "file"))
        (λ uid.
          >>=-Keeps (lookup_named (lookup_gid H "file") f.group) _
            (lookup_named-Keeps (lookup_gid H "file") f.group (lookup_gid-Keeps "file"))
            (λ gid s. ground arith))

  apt_repo-Keeps :
      (r : AptRepo) (env : Env) → is_dry_run env ≡ true → Keeps (AptRepo.converge_one H r env)
  unfolding AptRepo.converge_one
  apt_repo-Keeps r env h = file-Keeps (AptRepo.list_file r) env h

  systemd_unit-Keeps :
      (u : SystemdUnit) (env : Env)
      → is_dry_run env ≡ true
      → Keeps (SystemdUnit.converge_one H u env)
  unfolding SystemdUnit.converge_one
  systemd_unit-Keeps u env h =
      >>=-Keeps (File.converge_one H (SystemdUnit.unit_file u) env) _
        (file-Keeps (SystemdUnit.unit_file u) env h) (λ changed s. ground arith)

  directory-Keeps :
      (d : Directory) (env : Env) → is_dry_run env ≡ true → Keeps (Directory.converge_one H d env)
  unfolding Directory.converge_one
  directory-Keeps d env h =
      >>=-Keeps (lookup_named (lookup_uid H "directory") d.owner) _
        (lookup_named-Keeps (lookup_uid H "directory") d.owner (lookup_uid-Keeps "directory"))
        (λ uid.
          >>=-Keeps (lookup_named (lookup_gid H "directory") d.group) _
            (lookup_named-Keeps (lookup_gid H "directory") d.group (lookup_gid-Keeps "directory"))
            (λ gid s. ground arith))

  download-Keeps :
      (d : Download) (env : Env) → is_dry_run env ≡ true → Keeps (Download.converge_one H d env)
  unfolding Download.converge_one
  download-Keeps d env h s = ground (arith, quiet.https_get d.url s)

  line_in_file-Keeps :
      (l : LineInFile) (env : Env) → is_dry_run env ≡ true → Keeps (LineInFile.converge_one H l env)
  unfolding LineInFile.converge_one
  line_in_file-Keeps l env h s = ground arith

  symlink-Keeps :
      (l : Symlink) (env : Env) → is_dry_run env ≡ true → Keeps (Symlink.converge_one H l env)
  unfolding Symlink.converge_one
  symlink-Keeps l env h s = ground arith

  absent_file-Keeps :
      (f : AbsentFile) (env : Env) → is_dry_run env ≡ true → Keeps (AbsentFile.converge_one H f env)
  unfolding AbsentFile.converge_one
  absent_file-Keeps f env h s = ground arith

  converge_argv-Keeps :
      (c : Command) (argv : List String) (env : Env)
      → is_dry_run env ≡ true
      → Keeps (Command.converge_argv H c argv env)
  unfolding Command.converge_argv
  converge_argv-Keeps c [] env h s = refl
  converge_argv-Keeps c (program ∷ args) env h s = ground arith

  command-Keeps :
      (c : Command) (env : Env) → is_dry_run env ≡ true → Keeps (Command.converge_one H c env)
  unfolding Command.converge_one
  command-Keeps c env h = converge_argv-Keeps c c.argv env h

  marker-Keeps :
      (m : Marker) (env : Env) → is_dry_run env ≡ true → Keeps (Marker.converge_one H m env)
  unfolding Marker.converge_one
  marker-Keeps m env h s = refl

  systemctl_status-Keeps :
      (name : String)
      → Keeps (Service.systemctl_status H "is-enabled" name)
        × Keeps (Service.systemctl_status H "is-active" name)
  unfolding Service.systemctl_status
  systemctl_status-Keeps name =
      (λ s. ground (arith, quiet.is_enabled name s), λ s. ground (arith, quiet.is_active name s))

  service-Keeps :
      (v : Service) (env : Env) → is_dry_run env ≡ true → Keeps (Service.converge_one H v env)
  unfolding Service.converge_one
  service-Keeps v env h =
      >>=-Keeps (Service.systemctl_status H "is-enabled" v.name) _ (systemctl_status-Keeps v.name).0
        (λ is_enabled.
          >>=-Keeps (Service.systemctl_status H "is-active" v.name) _
            (systemctl_status-Keeps v.name).1 (λ is_active s. ground arith))

  current_groups-Keeps : (exists : Bool) (name : String) → Keeps (User.current_groups H exists name)
  unfolding User.current_groups User.sense_supplementary_groups
  current_groups-Keeps true name s = ground (arith, quiet.id ("-nG" ∷ name ∷ []) s)
  current_groups-Keeps false name s = refl

  sense_user_exists-Keeps : (name : String) → Keeps (User.sense_user_exists H name)
  unfolding User.sense_user_exists
  sense_user_exists-Keeps name s = ground (arith, quiet.getent ("passwd" ∷ name ∷ []) s)

  user-Keeps : (u : User) (env : Env) → is_dry_run env ≡ true → Keeps (User.converge_one H u env)
  unfolding User.converge_one
  user-Keeps u env h =
      >>=-Keeps (User.sense_user_exists H u.name) _ (sense_user_exists-Keeps u.name) (λ exists.
        >>=-Keeps (User.current_groups H exists u.name) _ (current_groups-Keeps exists u.name)
          (λ current s. ground arith))

  pub read_installed-Keeps : Keeps (AptPackage.read_installed_packages H)
  unfolding AptPackage.read_installed_packages
  read_installed-Keeps s =
      ground (arith, quiet.dpkg_query ("-W" ∷ "-f=${Package}\t${db:Status-Abbrev}\n" ∷ []) s)

  apt_package-Keeps :
      (p : AptPackage) (env : Env) → is_dry_run env ≡ true → Keeps (AptPackage.converge_one H p env)
  unfolding AptPackage.converge_one
  apt_package-Keeps p env h =
      >>=-Keeps (AptPackage.read_installed_packages H) _ read_installed-Keeps
        (λ installed s. ground arith)

  absent_apt_package-Keeps :
      (p : AbsentAptPackage) (env : Env)
      → is_dry_run env ≡ true
      → Keeps (AbsentAptPackage.converge_one H p env)
  unfolding AbsentAptPackage.converge_one
  absent_apt_package-Keeps p env h =
      >>=-Keeps (AptPackage.read_installed_packages H) _ read_installed-Keeps
        (λ installed s. ground arith)

  pub converge_one-Keeps :
      (r : Resource) (env : Env) → is_dry_run env ≡ true → Keeps (converge_one H r env)
  unfolding converge_one
  converge_one-Keeps (apt_package r) env h = apt_package-Keeps r env h
  converge_one-Keeps (absent_apt_package r) env h = absent_apt_package-Keeps r env h
  converge_one-Keeps (apt_repo r) env h = apt_repo-Keeps r env h
  converge_one-Keeps (command r) env h = command-Keeps r env h
  converge_one-Keeps (directory r) env h = directory-Keeps r env h
  converge_one-Keeps (download r) env h = download-Keeps r env h
  converge_one-Keeps (file r) env h = file-Keeps r env h
  converge_one-Keeps (absent_file r) env h = absent_file-Keeps r env h
  converge_one-Keeps (line_in_file r) env h = line_in_file-Keeps r env h
  converge_one-Keeps (marker r) env h = marker-Keeps r env h
  converge_one-Keeps (service r) env h = service-Keeps r env h
  converge_one-Keeps (symlink r) env h = symlink-Keeps r env h
  converge_one-Keeps (systemd_unit r) env h = systemd_unit-Keeps r env h
  converge_one-Keeps (user r) env h = user-Keeps r env h
