-- ===== src/Bundles/Docker/Units.antt =====
-- The parts of `build` in src/bundles/docker.rs that come after docker's own service: clean-up,
-- nvidia and the files of each user.
use ansible_playbooks.Common.{
  String, ◌<>◌, Bool, true, Option, none, some, List, [], ◌∷◌, get_or, if◌then◌else◌,
}
use ansible_playbooks.Resource.Ids.{ResourceId, in_container}
use ansible_playbooks.Backends.Registry.{Resource}
use ansible_playbooks.Backends.Defaults.{
  default_directory, default_file, default_service, default_systemd_unit,
}
use ansible_playbooks.Bundles.{Build, pure, ◌>>=◌, add}
use ansible_playbooks.Host.{FilePath}

-- The services that clean up, with their timers.
unfoldable pub add_cleanup : List ResourceId → Build (List ResourceId)
add_cleanup package_ids = do
  docker_cleanup_service ← add (
      Resource.systemd_unit (record default_systemd_unit {
        name = "docker-cleanup.service";
        content =
            ("[Unit]\n" <> "Description=Docker System Cleanup\n" <> "ConditionACPower=true\n"
              <> "\n" <> "[Service]\n" <> "Type=oneshot\n"
              <> "ExecStart=/usr/bin/docker system prune -a --volumes -f\n");
        deps = package_ids;
      }))
  docker_cleanup_timer_unit ← add (
      Resource.systemd_unit (record default_systemd_unit {
        name = "docker-cleanup.timer";
        content =
            ("[Unit]\n" <> "Description=Daily Docker System Cleanup Timer\n"
              <> "Requires=docker-cleanup.service\n" <> "\n" <> "[Timer]\n" <> "OnCalendar=daily\n"
              <> "Persistent=true\n" <> "\n" <> "[Install]\n" <> "WantedBy=timers.target\n");
        deps = docker_cleanup_service ∷ [];
      }))
  docker_cleanup_timer ← add (
      Resource.service (record default_service {
        name = "docker-cleanup.timer";
        enabled = true;
        started = true;
        deps = docker_cleanup_timer_unit ∷ [];
        skip_when = in_container;
      }))
  podman_cleanup_service ← add (
      Resource.systemd_unit (record default_systemd_unit {
        name = "podman-cleanup.service";
        content =
            ("[Unit]\n" <> "Description=Podman System Cleanup\n" <> "ConditionACPower=true\n"
              <> "\n" <> "[Service]\n" <> "Type=oneshot\n"
              <> "ExecStart=/usr/bin/podman system prune -a --volumes -f\n");
        deps = package_ids;
      }))
  podman_cleanup_timer_unit ← add (
      Resource.systemd_unit (record default_systemd_unit {
        name = "podman-cleanup.timer";
        content =
            ("[Unit]\n" <> "Description=Daily Podman System Cleanup Timer\n"
              <> "Requires=podman-cleanup.service\n" <> "\n" <> "[Timer]\n" <> "OnCalendar=daily\n"
              <> "Persistent=true\n" <> "\n" <> "[Install]\n" <> "WantedBy=timers.target\n");
        deps = podman_cleanup_service ∷ [];
      }))
  podman_cleanup_timer ← add (
      Resource.service (record default_service {
        name = "podman-cleanup.timer";
        enabled = true;
        started = true;
        deps = podman_cleanup_timer_unit ∷ [];
        skip_when = in_container;
      }))
  pure (
      docker_cleanup_service ∷ docker_cleanup_timer_unit ∷ docker_cleanup_timer
      ∷ podman_cleanup_service ∷ podman_cleanup_timer_unit ∷ podman_cleanup_timer ∷ [])

unfoldable pub nvidia_user_unit : Bool → List ResourceId → Build (List ResourceId)
nvidia_user_unit nvidia_enabled package_ids =
    if nvidia_enabled
    then (add (
          Resource.file (record default_file {
            path = "/etc/systemd/user/nvidia-ctk-docker-config.service";
            content =
                ("[Unit]\n" <> "Description=Configure NVIDIA Container Toolkit for Docker\n"
                  <> "ConditionPathExists=/usr/bin/nvidia-ctk\n" <> "Before=podman.socket\n" <> "\n"
                  <> "[Service]\n" <> "Type=oneshot\n" <> "RemainAfterExit=yes\n"
                  <> "ExecStart=/usr/bin/nvidia-ctk runtime configure --runtime=docker --config=%h/.config/docker/daemon.json\n"
                  <> "\n" <> "[Install]\n" <> "WantedBy=default.target\n");
            mode = some 0o644;
            deps = package_ids;
          }))
        >>= λ id. pure (id ∷ []))
    else pure []

unfoldable pub add_nvidia_services :
    ResourceId → ResourceId → ResourceId → ResourceId → Build (List ResourceId)
add_nvidia_services nvidia_ready nvidia_cdi_generate_unit nvidia_ctk_containerd_unit
      nvidia_ctk_crio_unit =
    do
      cdi ← add (
          Resource.service (record {
            name = "nvidia-cdi-generate.service";
            enabled = true;
            started = true;
            restart_on = nvidia_cdi_generate_unit ∷ nvidia_ready ∷ [];
            deps = nvidia_cdi_generate_unit ∷ nvidia_ready ∷ [];
            skip_when = in_container;
          }))
      containerd ← add (
          Resource.service (record {
            name = "nvidia-ctk-containerd-config.service";
            enabled = true;
            started = true;
            restart_on = nvidia_ctk_containerd_unit ∷ nvidia_ready ∷ [];
            deps = nvidia_ctk_containerd_unit ∷ nvidia_ready ∷ [];
            skip_when = in_container;
          }))
      crio ← add (
          Resource.service (record {
            name = "nvidia-ctk-crio-config.service";
            enabled = true;
            started = true;
            restart_on = nvidia_ctk_crio_unit ∷ nvidia_ready ∷ [];
            deps = nvidia_ctk_crio_unit ∷ nvidia_ready ∷ [];
            skip_when = in_container;
          }))
      pure (cdi ∷ containerd ∷ crio ∷ [])

-- One round of the loop over `user_specs`.
unfoldable pub add_user_files :
    List ResourceId → ResourceId → String → Option FilePath → Build (List ResourceId)
add_user_files package_ids users_ready name none = pure []
add_user_files package_ids users_ready name (some home) = do
  dir_id ← add (
      Resource.directory (record default_directory {
        path = (home <> "/.config/docker-user");
        mode = some 0o700;
        owner = some (name);
        deps = get_or package_ids 0 0 ∷ users_ready ∷ [];
      }))
  run_args_id ← add (
      Resource.file (record default_file {
        path = (home <> "/.config/docker-user/run-args");
        content =
            "--mount=\"type=bind,source=${HOME}/.config/docker-user/ansible-playbooks-work,destination=/mnt/my/ansible-work\" --mount=\"type=bind,source=${HOME}/.config/docker-user/ansible-playbooks,destination=/mnt/my/ansible\" --mount=\"type=bind,source=${HOME}/.gnupg/,destination=/root/.gnupg/\"\n";
        mode = some 0o600;
        owner = some (name);
        deps = dir_id ∷ [];
      }))
  pure (dir_id ∷ run_args_id ∷ [])
