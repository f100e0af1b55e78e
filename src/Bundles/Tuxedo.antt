-- ===== src/Bundles/Tuxedo.antt =====
-- src/bundles/tuxedo.rs
use ansible_playbooks.Common.{
  String, ◌<>◌, Bool, false, not, str_eq, Option, none, some, [], ◌∷◌, ◌++◌, if◌then◌else◌,
}
use ansible_playbooks.Resource.Ids.{ResourceId}
use ansible_playbooks.Backends.Registry.{Resource}
use ansible_playbooks.Backends.Defaults.{
  default_apt_package, default_apt_repo, default_download, default_file, default_absent_file,
  default_marker,
}
use ansible_playbooks.Bundles.{Setting, Build, ◌>>=◌, add, each, memoized}
use ansible_playbooks.Bundles.Apt.{apt}

abbrev pub is_tuxedo : Option String → Bool
is_tuxedo none = false
is_tuxedo (some vendor) = str_eq vendor "TUXEDO"

unfoldable pub pins_text : String
pins_text =
    "Package: *\n" <> "Pin: origin mirrors.tuxedocomputers.com\n" <> "Pin-Priority: 1\n" <> "\n"
    <> "Package: *\n" <> "Pin: origin deb.tuxedocomputers.com\n" <> "Pin-Priority: 1\n" <> "\n"
    <> "Package: linux-*\n" <> "Pin: origin mirrors.tuxedocomputers.com\n" <> "Pin-Priority: 995\n"
    <> "\n" <> "Package: tuxedo-*\n" <> "Pin: origin mirrors.tuxedocomputers.com\n"
    <> "Pin-Priority: 995\n" <> "\n" <> "Package: amd64-microcode\n"
    <> "Pin: origin mirrors.tuxedocomputers.com\n" <> "Pin-Priority: 995\n" <> "\n"
    <> "Package: linux-*\n" <> "Pin: origin deb.tuxedocomputers.com\n" <> "Pin-Priority: 995\n"
    <> "\n" <> "Package: tuxedo-*\n" <> "Pin: origin deb.tuxedocomputers.com\n"
    <> "Pin-Priority: 995\n" <> "\n" <> "Package: amd64-microcode\n"
    <> "Pin: origin deb.tuxedocomputers.com\n" <> "Pin-Priority: 995\n"

unfoldable pub register : Setting → Build ResourceId
register s = do
  apt_ready ← apt s
  pins ← add (
      Resource.file (record default_file {
        path = "/etc/apt/preferences.d/tuxedo.pref";
        content = pins_text;
        mode = some 0o644;
        deps = apt_ready ∷ [];
      }))
  legacy_key ← add (
      Resource.absent_file (record default_absent_file {
        path = "/etc/apt/trusted.gpg.d/tuxedo.gpg";
        deps = apt_ready ∷ [];
      }))
  key ← add (
      Resource.download (record default_download {
        url = "https://deb.tuxedocomputers.com/0x54840598.pub.asc";
        path = "/etc/apt/keyrings/tuxedo.asc";
        mode = some 0o644;
        deps = apt_ready ∷ [];
      }))
  repo ← add (
      Resource.apt_repo (record default_apt_repo {
        name = "tuxedo-computers";
        list_content =
            ("deb [signed-by=/etc/apt/keyrings/tuxedo.asc] https://deb.tuxedocomputers.com/ubuntu "
              <> s.env.ubuntu_codename <> " main\n");
        deps = apt_ready ∷ pins ∷ key ∷ [];
      }))
  package_ids ←
      each
        (λ name. add (
          Resource.apt_package
            (record default_apt_package { name = name; deps = apt_ready ∷ repo ∷ [] })))
        ("tuxedo-archive-keyring" ∷ "tuxedo-control-center" ∷ "tuxedo-keyboard"
          ∷ "tuxedo-touchpad-switch" ∷ "tuxedo-drivers" ∷ "linux-tuxedo" ∷ [])
  let all = (pins ∷ legacy_key ∷ key ∷ repo ∷ []) ++ package_ids
  add (Resource.marker (record default_marker { name = "tuxedo:ready"; deps = all }))

unfoldable pub build : Setting → Build ResourceId
build s =
    if not (is_tuxedo s.config.system_vendor)
    then add (Resource.marker (record default_marker { name = "tuxedo:ready"; deps = [] }))
    else register s

-- `Context::tuxedo`
unfoldable pub tuxedo : Setting → Build ResourceId
tuxedo s = memoized "tuxedo" (build s)
