-- ===== src/Bundles/Tailscale.antt =====
-- src/bundles/tailscale.rs
use ansible_playbooks.Common.{◌<>◌, some, [], ◌∷◌}
use ansible_playbooks.Resource.Ids.{ResourceId}
use ansible_playbooks.Backends.Registry.{Resource}
use ansible_playbooks.Backends.Defaults.{
  default_apt_package, default_apt_repo, default_download, default_file, default_absent_file,
  default_marker,
}
use ansible_playbooks.Bundles.{Setting, Build, ◌>>=◌, add, memoized}
use ansible_playbooks.Bundles.Apt.{apt}

unfoldable pub build : Setting → Build ResourceId
build s = do
  apt_ready ← apt s
  pin ← add (
      Resource.file (record default_file {
        path = "/etc/apt/preferences.d/tailscale.pref";
        content =
            ("Package: tailscale\n" <> "Pin: origin pkgs.tailscale.com\n" <> "Pin-Priority: 995\n");
        mode = some 0o644;
        deps = apt_ready ∷ [];
      }))
  legacy_key ← add (
      Resource.absent_file (record default_absent_file {
        path = "/usr/share/keyrings/tailscale-archive-keyring.gpg";
        deps = apt_ready ∷ [];
      }))
  key ← add (
      Resource.download (record default_download {
        url = "https://pkgs.tailscale.com/stable/ubuntu/jammy.asc";
        path = "/etc/apt/keyrings/tailscale.asc";
        mode = some 0o644;
        deps = apt_ready ∷ [];
      }))
  repo ← add (
      Resource.apt_repo (record default_apt_repo {
        name = "tailscale";
        list_content =
            ("deb [signed-by=/etc/apt/keyrings/tailscale.asc] https://pkgs.tailscale.com/stable/ubuntu "
              <> s.env.ubuntu_codename <> " main\n");
        deps = apt_ready ∷ pin ∷ key ∷ [];
      }))
  pkg ← add (
      Resource.apt_package
        (record default_apt_package { name = "tailscale"; deps = apt_ready ∷ repo ∷ [] }))
  add (
      Resource.marker (record default_marker {
        name = "tailscale:ready";
        deps = pin ∷ legacy_key ∷ key ∷ repo ∷ pkg ∷ [];
      }))

-- `Context::tailscale`
unfoldable pub tailscale : Setting → Build ResourceId
tailscale s = memoized "tailscale" (build s)
