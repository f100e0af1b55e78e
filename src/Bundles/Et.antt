-- ===== src/Bundles/Et.antt =====
-- src/bundles/et.rs
use ansible_playbooks.Common.{◌<>◌, true, some, [], ◌∷◌}
use ansible_playbooks.Resource.Ids.{ResourceId, in_container}
use ansible_playbooks.Backends.Registry.{Resource}
use ansible_playbooks.Backends.Defaults.{
  default_apt_package, default_apt_repo, default_download, default_file, default_absent_file,
  default_marker,
}
use ansible_playbooks.Bundles.{Setting, Build, ◌>>=◌, add, memoized}
use ansible_playbooks.Bundles.Apt.{apt}

unfoldable pub build : Setting → Build ResourceId
build s = do
  apt_ready ← apt s
  pin ← add (
      Resource.file (record default_file {
        path = "/etc/apt/preferences.d/ppa-et.pref";
        content = ("Package: et\n" <> "Pin: origin ppa.launchpad.net\n" <> "Pin-Priority: 995\n");
        mode = some 0o644;
        deps = apt_ready ∷ [];
      }))
  legacy_key ← add (
      Resource.absent_file (record default_absent_file {
        path = "/etc/apt/trusted.gpg.d/ppa-et.gpg";
        deps = apt_ready ∷ [];
      }))
  key ← add (
      Resource.download (record default_download {
        url =
            "https://keyserver.ubuntu.com/pks/lookup?op=get&options=mr&search=0xD3614CB0B3C2D154356BD436CB4ADEA5B72A07A1";
        path = "/etc/apt/keyrings/ppa-et.asc";
        mode = some 0o644;
        deps = apt_ready ∷ [];
      }))
  repo ← add (
      Resource.apt_repo (record default_apt_repo {
        name = "ppa-et";
        list_content =
            ("deb [signed-by=/etc/apt/keyrings/ppa-et.asc] http://ppa.launchpad.net/jgmath2000/et/ubuntu "
              <> s.env.ubuntu_codename <> " main\n"
              <> "deb-src [signed-by=/etc/apt/keyrings/ppa-et.asc] http://ppa.launchpad.net/jgmath2000/et/ubuntu "
              <> s.env.ubuntu_codename <> " main\n");
        deps = apt_ready ∷ pin ∷ key ∷ [];
      }))
  pkg ← add (
      Resource.apt_package
        (record default_apt_package { name = "et"; deps = apt_ready ∷ repo ∷ [] }))
  cfg ← add (
      Resource.file (record default_file {
        path = "/etc/et.cfg";
        content =
            ("; et.cfg : Config file for Eternal Terminal\n" <> ";\n" <> "\n" <> "[Networking]\n"
              <> "port = 2022\n" <> "# bind_ip = 0.0.0.0\n" <> "\n" <> "[Debug]\n"
              <> "verbose = 0\n" <> "silent = 0\n" <> "logsize = 20971520\n"
              <> "telemetry = false\n" <> "logdirectory = /tmp\n");
        mode = some 0o644;
        deps = pkg ∷ [];
      }))
  service ← add (
      Resource.service (record {
        name = "et.service";
        enabled = true;
        started = true;
        restart_on = cfg ∷ [];
        deps = pkg ∷ cfg ∷ [];
        skip_when = in_container;
      }))
  add (
      Resource.marker (record default_marker {
        name = "et:ready";
        deps = pin ∷ legacy_key ∷ key ∷ repo ∷ pkg ∷ cfg ∷ service ∷ [];
      }))

-- `Context::et`
unfoldable pub et : Setting → Build ResourceId
et s = memoized "et" (build s)
