-- ===== src/Bundles/Docker.antt =====
-- src/bundles/docker.rs
pub mod Units
use ansible_playbooks.Common.{
  String, ◌<>◌, Bool, true, Option, none, some, List, [], ◌∷◌, ◌++◌, get_or, if◌then◌else◌,
}
use ansible_playbooks.Resource.Ids.{ResourceId, in_container}
use ansible_playbooks.Backends.Registry.{Resource}
use ansible_playbooks.Backends.Defaults.{
  default_apt_package, default_absent_apt_package, default_apt_repo, default_directory,
  default_download, default_file, default_absent_file, default_marker, default_service,
  default_systemd_unit,
}
use ansible_playbooks.Bundles.{Setting, Build, pure, ◌>>=◌, add, each, memoized}
use ansible_playbooks.Bundles.Apt.{apt}
use ansible_playbooks.Bundles.Users.{users}
use ansible_playbooks.Bundles.Nvidia.{nvidia}
use ansible_playbooks.Common.{flatten}
unfoldable pub use ansible_playbooks.Bundles.Docker.Units.{
  add_cleanup, nvidia_user_unit, add_nvidia_services, add_user_files,
}
use ansible_playbooks.Env.{apt_arch}
use ansible_playbooks.Host.{FilePath}

unfoldable pub runtimes_block : Bool → String
runtimes_block nvidia_enabled =
    if nvidia_enabled
    then "    \"nvidia\": {\n      \"args\": [],\n      \"path\": \"nvidia-container-runtime\"\n    }\n  "
    else ""

unfoldable pub build : Setting → Build ResourceId
build s = do
  apt_ready ← apt s
  users_ready ← users s
  nvidia_ready ← nvidia s
  key ← add (
      Resource.download (record default_download {
        url = "https://download.docker.com/linux/ubuntu/gpg";
        path = "/etc/apt/keyrings/docker.asc";
        mode = some 0o644;
        deps = apt_ready ∷ [];
      }))
  pin ← add (
      Resource.file (record default_file {
        path = "/etc/apt/preferences.d/docker-ce.pref";
        content = ("Package: *\n" <> "Pin: origin download.docker.com\n" <> "Pin-Priority: 995\n");
        mode = some 0o644;
        deps = apt_ready ∷ [];
      }))
  stale_repo ← add (
      Resource.absent_file (record default_absent_file {
        path = "/etc/apt/sources.list.d/docker.list";
        deps = apt_ready ∷ [];
      }))
  docker_repo ← add (
      Resource.apt_repo (record default_apt_repo {
        name = "docker-ce";
        list_content =
            ("deb [signed-by=/etc/apt/keyrings/docker.asc arch="
              <> apt_arch s.env
              <> "] https://download.docker.com/linux/ubuntu "
              <> s.env.ubuntu_codename
              <> " stable\n");
        deps = apt_ready ∷ pin ∷ key ∷ stale_repo ∷ [];
      }))
  package_ids ←
      each
        (λ name. add (
          Resource.apt_package
            (record default_apt_package { name = name; deps = docker_repo ∷ [] })))
        ("docker-ce" ∷ "docker-ce-cli" ∷ "containerd.io" ∷ "docker-buildx-plugin"
          ∷ "docker-compose-plugin" ∷ "podman" ∷ "podman-compose" ∷ "crun" ∷ [])
  daemon_json ← add (
      Resource.file (record default_file {
        path = "/etc/docker/daemon.json";
        content =
            ("{\n"
              <> "  \"iptables\": false,\n"
              <> "  \"ipv6\": true,\n"
              <> "  \"fixed-cidr-v6\": \"5051::/112\",\n"
              <> "  \"metrics-addr\": \"0.0.0.0:9323\",\n"
              <> "  \"runtimes\": {\n"
              <> "  "
              <> runtimes_block s.config.nvidia
              <> "}\n"
              <> "}\n");
        mode = some 0o644;
        deps = package_ids;
      }))
  docker_dropin ← add (
      Resource.systemd_unit (record default_systemd_unit {
        name = "docker.service.d/custom-docker-opts.conf";
        content =
            ("[Service]\n" <> "ExecStart=\n"
              <> "ExecStart=/usr/bin/dockerd -H unix:// --experimental=true\n");
        deps = get_or package_ids 0 0 ∷ [];
      }))
  nvidia_cdi_generate_unit ← add (
      Resource.systemd_unit (record default_systemd_unit {
        name = "nvidia-cdi-generate.service";
        content =
            ("[Unit]\n" <> "Description=Generate NVIDIA CDI specification\n"
              <> "ConditionPathExists=/usr/bin/nvidia-ctk\n" <> "Before=docker.service\n"
              <> "Before=containerd.service\n" <> "\n" <> "[Service]\n" <> "Type=oneshot\n"
              <> "RemainAfterExit=yes\n" <> "ExecStartPre=/bin/mkdir -p /etc/cdi\n"
              <> "ExecStart=/usr/bin/nvidia-ctk cdi generate --output=/etc/cdi/nvidia.yaml\n"
              <> "\n" <> "[Install]\n" <> "WantedBy=multi-user.target\n");
        deps = package_ids;
      }))
  nvidia_ctk_containerd_unit ← add (
      Resource.systemd_unit (record default_systemd_unit {
        name = "nvidia-ctk-containerd-config.service";
        content =
            ("[Unit]\n" <> "Description=Configure NVIDIA Container Toolkit for containerd\n"
              <> "ConditionPathExists=/usr/bin/nvidia-ctk\n" <> "Before=containerd.service\n"
              <> "\n" <> "[Service]\n" <> "Type=oneshot\n" <> "RemainAfterExit=yes\n"
              <> "ExecStart=/usr/bin/nvidia-ctk runtime configure --runtime=containerd\n" <> "\n"
              <> "[Install]\n" <> "WantedBy=multi-user.target\n");
        deps = package_ids;
      }))
  nvidia_ctk_crio_unit ← add (
      Resource.systemd_unit (record default_systemd_unit {
        name = "nvidia-ctk-crio-config.service";
        content =
            ("[Unit]\n" <> "Description=Configure NVIDIA Container Toolkit for CRI-O\n"
              <> "ConditionPathExists=/usr/bin/nvidia-ctk\n" <> "Before=crio.service\n" <> "\n"
              <> "[Service]\n" <> "Type=oneshot\n" <> "RemainAfterExit=yes\n"
              <> "ExecStart=/usr/bin/nvidia-ctk runtime configure --runtime=crio\n" <> "\n"
              <> "[Install]\n" <> "WantedBy=multi-user.target\n");
        deps = package_ids;
      }))
  let docker_restart_on =
      (daemon_json ∷ docker_dropin ∷ []) ++ (if s.config.nvidia then nvidia_ready ∷ [] else [])
  let docker_deps =
      (daemon_json ∷ docker_dropin ∷ nvidia_ready ∷ [])
      ++ (if s.config.nvidia
          then nvidia_cdi_generate_unit ∷ nvidia_ctk_containerd_unit ∷ []
          else [])
  docker_service ← add (
      Resource.service (record {
        name = "docker.service";
        enabled = true;
        started = true;
        restart_on = docker_restart_on;
        deps = docker_deps;
        skip_when = in_container;
      }))
  cleanup ← add_cleanup package_ids
  nvidia_user_unit_id ← nvidia_user_unit s.config.nvidia package_ids
  nvidia_service_ids ←
      if s.config.nvidia
      then add_nvidia_services nvidia_ready nvidia_cdi_generate_unit nvidia_ctk_containerd_unit
          nvidia_ctk_crio_unit
      else pure []
  removed_ids ←
      each
        (λ name. add (
          Resource.absent_apt_package
            (record default_absent_apt_package { name = name; deps = apt_ready ∷ [] })))
        ("docker.io" ∷ "docker-compose" ∷ "docker-compose-v2" ∷ "docker-doc" ∷ [])
  per_user_ids ←
      each (λ (name, spec). add_user_files package_ids users_ready name spec.home) s.config.users
  let all =
      (key ∷ pin ∷ stale_repo ∷ docker_repo ∷ [])
      ++ (package_ids
          ++ ((daemon_json ∷ docker_dropin ∷ docker_service ∷ [])
              ++ (cleanup
                  ++ ((nvidia_cdi_generate_unit ∷ nvidia_ctk_containerd_unit ∷ nvidia_ctk_crio_unit
                        ∷ [])
                      ++ (nvidia_service_ids
                          ++ (nvidia_user_unit_id ++ (removed_ids ++ flatten per_user_ids)))))))
  add (Resource.marker (record default_marker { name = "docker:ready"; deps = all }))

-- `Context::docker`
unfoldable pub docker : Setting → Build ResourceId
docker s = memoized "docker" (build s)
