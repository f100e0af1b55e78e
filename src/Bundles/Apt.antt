-- ===== src/Bundles/Apt.antt =====
-- src/bundles/apt.rs
use ansible_playbooks.Common.{String, ◌<>◌, Bool, some, List, [], ◌∷◌, ◌++◌, if◌then◌else◌}
use ansible_playbooks.Resource.Ids.{ResourceId}
use ansible_playbooks.Backends.Registry.{Resource}
use ansible_playbooks.Backends.Defaults.{
  default_apt_package, default_download, default_file, default_absent_file, default_marker,
}
use ansible_playbooks.Bundles.{Setting, Build, pure, ◌>>=◌, add, each, memoized}
use ansible_playbooks.Common.{flatten, any}
use ansible_playbooks.Env.{Env, is_arm}
use ansible_playbooks.Config.{
  AptRepo, ubuntu, ubuntu_security, ubuntu_updates, ubuntu_backports, ubuntu_proposed,
  ppa_pv_safronov_backports, stem, is_ppa,
}

-- The bodies of the pin and of the list of an entry of `apt_repos`.
unfoldable pub render_repo_entry : AptRepo → String → String → String → String × String
render_repo_entry ubuntu codename archive_base security_base = (
  ("Package: *\n" <> "Pin: release a=" <> codename <> "\n" <> "Pin-Priority: 990\n"),
  ("deb " <> archive_base <> "/ " <> codename <> " main restricted universe multiverse\n"
      <> "deb-src " <> archive_base <> "/ " <> codename
      <> " main restricted universe multiverse\n"),
)
render_repo_entry ubuntu_security codename archive_base security_base = (
  ("Package: *\n" <> "Pin: release a=" <> codename <> "-security\n" <> "Pin-Priority: 990\n"),
  ("deb " <> security_base <> "/ " <> codename <> "-security main restricted universe multiverse\n"
      <> "deb-src " <> security_base <> "/ " <> codename
      <> "-security main restricted universe multiverse\n"),
)
render_repo_entry ubuntu_updates codename archive_base security_base = (
  ("Package: *\n" <> "Pin: release a=" <> codename <> "-updates\n" <> "Pin-Priority: 990\n"),
  ("deb " <> archive_base <> "/ " <> codename <> "-updates main restricted universe multiverse\n"
      <> "deb-src " <> archive_base <> "/ " <> codename
      <> "-updates main restricted universe multiverse\n"),
)
render_repo_entry ubuntu_backports codename archive_base security_base = (
  ("Package: *\n" <> "Pin: release a=" <> codename <> "-backports\n" <> "Pin-Priority: 990\n"),
  ("deb " <> archive_base <> "/ " <> codename <> "-backports main restricted universe multiverse\n"
      <> "deb-src " <> archive_base <> "/ " <> codename
      <> "-backports main restricted universe multiverse\n"),
)
render_repo_entry ubuntu_proposed codename archive_base security_base = (
  ("Package: *\n" <> "Pin: release a=" <> codename <> "-proposed\n" <> "Pin-Priority: 990\n"),
  ("deb " <> archive_base <> "/ " <> codename <> "-proposed main restricted universe multiverse\n"
      <> "deb-src " <> archive_base <> "/ " <> codename
      <> "-proposed main restricted universe multiverse\n"),
)
render_repo_entry ppa_pv_safronov_backports codename archive_base security_base = (
  ("Package: *\n" <> "Pin: release o=LP-PPA-pv-safronov-backports\n" <> "Pin-Priority: 990\n"),
  ("deb [signed-by=/etc/apt/keyrings/ppa-pv-safronov-backports.asc] https://ppa.launchpadcontent.net/pv-safronov/backports/ubuntu "
      <> codename <> " main\n"
      <> "deb-src [signed-by=/etc/apt/keyrings/ppa-pv-safronov-backports.asc] https://ppa.launchpadcontent.net/pv-safronov/backports/ubuntu "
      <> codename <> " main\n"),
)

-- `(archive_base, security_base)`
unfoldable pub bases : Env → String × String
bases env =
    if is_arm env
    then ("http://ports.ubuntu.com/ubuntu-ports", "http://ports.ubuntu.com/ubuntu-ports")
    else ("http://archive.ubuntu.com/ubuntu", "http://security.ubuntu.com/ubuntu")

unfoldable pub confd_files : Setting → Build (List ResourceId)
confd_files s = do
  recommends ← add (
      Resource.file (record default_file {
        path = "/etc/apt/apt.conf.d/00noinstallrecommends";
        content =
            ("APT::Get::Install-Recommends \"false\";\n"
              <> "APT::Get::Install-Suggests \"false\";\n");
        mode = some 0o644;
      }))
  allowunauth ← add (
      Resource.file (record default_file {
        path = "/etc/apt/apt.conf.d/30allowunauth";
        content = "APT::Get::AllowUnauthenticated \"false\";\n";
        mode = some 0o644;
      }))
  timeout ← add (
      Resource.file (record default_file {
        path = "/etc/apt/apt.conf.d/00timeout";
        content = ("Acquire::http::Timeout \"3\";\n" <> "Acquire::ftp::Timeout \"3\";\n");
        mode = some 0o644;
      }))
  periodic ← add (
      Resource.file (record default_file {
        path = "/etc/apt/apt.conf.d/10periodic";
        content =
            ("APT::Periodic::Update-Package-Lists \"0\";\n"
              <> "APT::Periodic::Download-Upgradeable-Packages \"0\";\n"
              <> "APT::Periodic::AutocleanInterval \"0\";\n"
              <> "APT::Periodic::Unattended-Upgrade \"0\";\n");
        mode = some 0o644;
      }))
  release ← add (
      Resource.file (record default_file {
        path = "/etc/apt/apt.conf.d/00release";
        content =
            ("# Please do not uncomment this. It is setting all packages with release xenial\n"
              <> "# to priority 990 and it is really bad\n" <> "#APT::Default-Release \""
              <> s.env.ubuntu_codename <> "\";\n");
        mode = some 0o644;
      }))
  debug ← add (
      Resource.file (record default_file {
        path = "/etc/apt/apt.conf.d/99debug";
        content =
            ("#Debug::Acquire::cdrom \"yes\";\n" <> "#Debug::Acquire::ftp \"yes\";\n"
              <> "#Debug::Acquire::gpgv \"yes\";\n" <> "#Debug::Acquire::http \"yes\";\n"
              <> "#Debug::Acquire::https \"yes\";\n" <> "#Debug::aptcdrom \"yes\";\n"
              <> "#Debug::BuildDeps \"yes\";\n" <> "#Debug::Hashes \"yes\";\n"
              <> "#Debug::IdentCdrom \"yes\";\n" <> "#Debug::IdentCDROM \"yes\";\n"
              <> "#Debug::NoLocking \"yes\";\n" <> "#Debug::pkgAcquire \"yes\";\n"
              <> "#Debug::pkgAcquire::Auth \"yes\";\n" <> "#Debug::pkgAcquire::Diffs \"yes\";\n"
              <> "#Debug::pkgAcquire::RRed \"yes\";\n" <> "#Debug::pkgAcquire::Worker \"yes\";\n"
              <> "#Debug::pkgAutoRemove \"yes\";\n" <> "#Debug::pkgDepCache::AutoInstall \"yes\";\n"
              <> "#Debug::pkgDepCache::Marker \"yes\";\n" <> "#Debug::pkgDPkgPM \"yes\";\n"
              <> "#Debug::pkgDPkgProgressReporting \"yes\";\n" <> "#Debug::pkgOrderList \"yes\";\n"
              <> "#Debug::pkgPackageManager \"yes\";\n" <> "#Debug::pkgPolicy \"yes\";\n"
              <> "#Debug::pkgProblemResolver \"yes\";\n"
              <> "#Debug::pkgProblemResolver::ShowScores \"yes\";\n"
              <> "#Debug::RunScripts \"yes\";\n" <> "#Debug::sourceList \"yes\";\n");
        mode = some 0o644;
      }))
  pure (recommends ∷ allowunauth ∷ timeout ∷ periodic ∷ release ∷ debug ∷ [])

-- One round of the loop over `apt_repos`.
unfoldable pub add_repo : Setting → AptRepo → Build (List ResourceId)
add_repo s repo = do
  let body = render_repo_entry repo s.env.ubuntu_codename (bases s.env).0 (bases s.env).1
  pin ← add (
      Resource.file (record default_file {
        path = ("/etc/apt/preferences.d/" <> stem repo <> ".pref");
        content = body.0;
        mode = some 0o644;
      }))
  list ← add (
      Resource.file (record default_file {
        path = ("/etc/apt/sources.list.d/" <> stem repo <> ".list");
        content = body.1;
        mode = some 0o644;
      }))
  pure (pin ∷ list ∷ [])

-- The key, if `ppa_safronov_enabled`.
unfoldable pub ppa_key : Bool → Build (List ResourceId)
ppa_key ppa_safronov_enabled =
    if ppa_safronov_enabled
    then (add (
          Resource.download (record default_download {
            url =
                "https://keyserver.ubuntu.com/pks/lookup?op=get&options=mr&search=0xFED902047AF1397755144CF6B47BBF2062DDDB70";
            path = "/etc/apt/keyrings/ppa-pv-safronov-backports.asc";
            mode = some 0o644;
          }))
        >>= λ key. pure (key ∷ []))
    else pure []

unfoldable pub build : Setting → Build ResourceId
build s = do
  confd ← confd_files s
  cleanup ←
      each (λ p. add (Resource.absent_file (record default_absent_file { path = p })))
        ("/etc/update-motd.d/90-updates-available" ∷ "/etc/apt/apt.conf.d/99update-notifier"
          ∷ "/etc/cron.daily/update-notifier-common" ∷ "/etc/cron.weekly/update-notifier-common"
          ∷ "/etc/apt/sources.list.d/ubuntu.sources"
          ∷ "/etc/apt/trusted.gpg.d/ppa-pv-safronov-backports.gpg" ∷ [])
  sources_list ← add (
      Resource.file (record default_file {
        path = "/etc/apt/sources.list";
        content =
            ("# This file must be empty.\n"
              <> "# Please add new repositories to /etc/apt/sources.list.d/*.list\n");
        mode = some 0o644;
      }))
  ppa_pin ← add (
      Resource.file (record default_file {
        path = "/etc/apt/preferences.d/ppa.pref";
        content =
            ("Package: *\n" <> "Pin: origin ppa.launchpad.net\n" <> "Pin-Priority: 1\n" <> "\n"
              <> "Package: *\n" <> "Pin: origin ppa.launchpadcontent.net\n" <> "Pin-Priority: 1\n");
        mode = some 0o644;
      }))
  rounds ← each (add_repo s) s.config.apt_repos
  key ← ppa_key (any is_ppa s.config.apt_repos)
  let repo_resources = (sources_list ∷ ppa_pin ∷ []) ++ (flatten rounds ++ key)
  let deps_for_pkgs = confd ++ (repo_resources ++ cleanup)
  bootstrap ←
      each
        (λ name.
          add (
            Resource.apt_package
              (record default_apt_package { name = name; deps = deps_for_pkgs })))
        ("software-properties-common" ∷ "python3-pycurl" ∷ "python3-apt" ∷ "apt-transport-https"
          ∷ "openssh-client" ∷ "aptitude" ∷ [])
  let all_apt_resources = confd ++ (cleanup ++ (repo_resources ++ bootstrap))
  add (Resource.marker (record default_marker { name = "apt:ready"; deps = all_apt_resources }))

-- `Context::apt`
unfoldable pub apt : Setting → Build ResourceId
apt s = memoized "apt" (build s)
