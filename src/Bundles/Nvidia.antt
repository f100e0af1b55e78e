-- ===== src/Bundles/Nvidia.antt =====
-- src/bundles/nvidia.rs
use ansible_playbooks.Common.{◌<>◌, not, some, [], ◌∷◌, if◌then◌else◌}
use ansible_playbooks.Resource.Ids.{ResourceId}
use ansible_playbooks.Backends.Registry.{Resource}
use ansible_playbooks.Backends.Defaults.{
  default_apt_package, default_apt_repo, default_download, default_file, default_absent_file,
  default_marker,
}
use ansible_playbooks.Bundles.{Setting, Build, ◌>>=◌, add, memoized}
use ansible_playbooks.Bundles.Apt.{apt}

unfoldable pub register : Setting → Build ResourceId
register s = do
  apt_ready ← apt s
  pin ← add (
      Resource.file (record default_file {
        path = "/etc/apt/preferences.d/nvidia.pref";
        content =
            ("Package: nvidia-container-toolkit\n" <> "Pin: origin nvidia.github.io\n"
              <> "Pin-Priority: 995\n");
        mode = some 0o644;
        deps = apt_ready ∷ [];
      }))
  legacy_key ← add (
      Resource.absent_file (record default_absent_file {
        path = "/usr/share/keyrings/nvidia-container-toolkit-keyring.gpg";
        deps = apt_ready ∷ [];
      }))
  key ← add (
      Resource.download (record default_download {
        url = "https://nvidia.github.io/libnvidia-container/gpgkey";
        path = "/etc/apt/keyrings/nvidia-container-toolkit.asc";
        mode = some 0o644;
        deps = apt_ready ∷ [];
      }))
  repo ← add (
      Resource.apt_repo (record default_apt_repo {
        name = "nvidia";
        list_content =
            ("deb [signed-by=/etc/apt/keyrings/nvidia-container-toolkit.asc] https://nvidia.github.io/libnvidia-container/stable/deb/$(ARCH) /\n"
              <> "#deb [signed-by=/etc/apt/keyrings/nvidia-container-toolkit.asc] https://nvidia.github.io/libnvidia-container/experimental/deb/$(ARCH) /\n");
        deps = apt_ready ∷ pin ∷ key ∷ [];
      }))
  unattended_blacklist ← add (
      Resource.file (record default_file {
        path = "/etc/apt/apt.conf.d/51unattended-upgrades-nvidia-blacklist";
        content =
            ("// Blacklist NVIDIA packages from automatic upgrades\n"
              <> "// This prevents unattended-upgrades from automatically updating NVIDIA drivers\n"
              <> "// which could cause compatibility issues with CUDA applications\n" <> "\n"
              <> "Unattended-Upgrade::Package-Blacklist {\n" <> "    \"nvidia-driver\";\n"
              <> "    \"nvidia-dkms\";\n" <> "    \"nvidia-kernel\";\n" <> "    \"libnvidia\";\n"
              <> "    \"nvidia-*\";\n" <> "};");
        mode = some 0o644;
        deps = apt_ready ∷ [];
      }))
  toolkit ← add (
      Resource.apt_package (record default_apt_package {
        name = "nvidia-container-toolkit";
        deps = apt_ready ∷ repo ∷ unattended_blacklist ∷ [];
      }))
  add (
      Resource.marker (record default_marker {
        name = "nvidia:ready";
        deps = pin ∷ legacy_key ∷ key ∷ repo ∷ unattended_blacklist ∷ toolkit ∷ [];
      }))

unfoldable pub build : Setting → Build ResourceId
build s =
    if not s.config.nvidia
    then add (Resource.marker (record default_marker { name = "nvidia:ready"; deps = [] }))
    else register s

-- `Context::nvidia`
unfoldable pub nvidia : Setting → Build ResourceId
nvidia s = memoized "nvidia" (build s)
