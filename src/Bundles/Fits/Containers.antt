-- ===== src/Bundles/Fits/Containers.antt =====
-- `Fits` for src/bundles/docker.rs and the exporters that run in its containers.
use ansible_playbooks.Common.{ℕ, ◌≤◌, ◌<◌, arith, String, Bool, Option, none, some, List, [], ◌∷◌}
use ansible_playbooks.Resource.Ids.{ResourceId}
use ansible_playbooks.Host.{FilePath}
use ansible_playbooks.Bundles.{Setting}
use ansible_playbooks.Bundles.Fits.{
  Fits, >>=-Fits, add-Fits, each-add-Fits, rounds-Fits, when-Fits, pure-Fits, memoized-Fits, AreIds,
  AreIds-when, AreIds-append, AreIds-mono, AreIds-flatten, AreIds-get_or, if-Fits,
}
use ansible_playbooks.Bundles.Docker
use ansible_playbooks.Bundles.NodeExporter
use ansible_playbooks.Bundles.SmartctlExporter
use ansible_playbooks.Bundles.Fits.Apt.{apt-Fits}
use ansible_playbooks.Bundles.Fits.Machines.{nvidia-Fits}
use ansible_playbooks.Bundles.Fits.Users.{users-Fits}

add_cleanup-Fits :
    (package_ids : List ResourceId) {n : ℕ}
    → AreIds package_ids n
    → Fits AreIds n (Docker.add_cleanup package_ids)
unfolding Docker.add_cleanup
add_cleanup-Fits package_ids h = >>=-Fits (add-Fits _ h) λ docker_service k1 le1 in1.
    >>=-Fits (add-Fits _ (omega arith)) λ docker_unit k2 le2 in2.
      >>=-Fits (add-Fits _ (omega arith)) λ docker_timer k3 le3 in3.
        >>=-Fits (add-Fits _ (AreIds-mono package_ids (omega arith) h)) λ podman_service k4 le4 in4.
          >>=-Fits (add-Fits _ (omega arith)) λ podman_unit k5 le5 in5.
            >>=-Fits (add-Fits _ (omega arith))
              λ podman_timer k6 le6 in6. pure-Fits _ λ k le. omega arith

nvidia_user_unit-Fits :
    (nvidia_enabled : Bool) (package_ids : List ResourceId) {n : ℕ}
    → AreIds package_ids n
    → Fits AreIds n (Docker.nvidia_user_unit nvidia_enabled package_ids)
unfolding Docker.nvidia_user_unit
nvidia_user_unit-Fits nvidia_enabled package_ids h =
    when-Fits nvidia_enabled
      (>>=-Fits (add-Fits _ h) λ id k1 le1 in1. pure-Fits _ λ k le. omega arith)

add_nvidia_services-Fits :
    (nvidia_ready cdi containerd crio : ResourceId) {n : ℕ}
    → AreIds (nvidia_ready ∷ cdi ∷ containerd ∷ crio ∷ []) n
    → Fits AreIds n (Docker.add_nvidia_services nvidia_ready cdi containerd crio)
unfolding Docker.add_nvidia_services
add_nvidia_services-Fits nvidia_ready cdi containerd crio h =
    >>=-Fits (add-Fits _ (omega arith)) λ cdi_service k1 le1 in1.
      >>=-Fits (add-Fits _ (omega arith)) λ containerd_service k2 le2 in2.
        >>=-Fits (add-Fits _ (omega arith))
          λ crio_service k3 le3 in3. pure-Fits _ λ k le. omega arith

add_user_files-Fits :
    (package_ids : List ResourceId) (users_ready : ResourceId) (name : String)
    (home : Option FilePath) {n : ℕ}
    → AreIds package_ids n
    → users_ready < n
    → Fits AreIds n (Docker.add_user_files package_ids users_ready name home)
unfolding Docker.add_user_files
add_user_files-Fits package_ids users_ready name none h lt = pure-Fits [] λ k le. tt
add_user_files-Fits package_ids users_ready name (some home) h lt =
    >>=-Fits (add-Fits _ (AreIds-get_or package_ids 0 (omega arith) h, (lt, tt)))
      λ dir_id k1 le1 in1.
        >>=-Fits (add-Fits _ (omega arith))
          λ run_args_id k2 le2 in2. pure-Fits _ λ k le. omega arith

docker_build-Fits : (s : Setting) {n : ℕ} → Fits ◌<◌ n (Docker.build s)
unfolding Docker.build
docker_build-Fits s = >>=-Fits (apt-Fits s) λ apt_ready k1 le1 in1.
    >>=-Fits (users-Fits s) λ users_ready k2 le2 in2.
      >>=-Fits (nvidia-Fits s) λ nvidia_ready k3 le3 in3.
        >>=-Fits (add-Fits _ (omega arith)) λ key k4 le4 in4.
          >>=-Fits (add-Fits _ (omega arith)) λ pin k5 le5 in5.
            >>=-Fits (add-Fits _ (omega arith)) λ stale_repo k6 le6 in6.
              >>=-Fits (add-Fits _ (omega arith)) λ docker_repo k7 le7 in7.
                >>=-Fits (each-add-Fits _ _ λ name j more. omega arith) λ package_ids k8 le8 in8.
                  let packages = λ (j : ℕ) (more : k8 ≤ j). AreIds-mono package_ids more in8 in
                  >>=-Fits (add-Fits _ (packages k8 (omega arith))) λ daemon_json k9 le9 in9.
                    >>=-Fits
                      (add-Fits _
                        (AreIds-get_or package_ids 0 (omega arith) (packages k9 (omega arith)), tt))
                      λ docker_dropin k10 le10 in10.
                        >>=-Fits (add-Fits _ (packages k10 (omega arith))) λ cdi k11 le11 in11.
                          >>=-Fits (add-Fits _ (packages k11 (omega arith)))
                            λ containerd k12 le12 in12.
                              >>=-Fits (add-Fits _ (packages k12 (omega arith)))
                                λ crio k13 le13 in13.
                                  >>=-Fits
                                    (add-Fits _ (
                                      AreIds-append
                                        (daemon_json ∷ docker_dropin ∷ nvidia_ready ∷ []) _ k13
                                        (omega arith)
                                        (AreIds-when s.config.nvidia (cdi ∷ containerd ∷ []) k13
                                          (omega arith))))
                                    λ docker_service k14 le14 in14.
                                      >>=-Fits
                                        (add_cleanup-Fits package_ids (packages k14 (omega arith)))
                                        λ cleanup k15 le15 in15.
                                          >>=-Fits
                                            (nvidia_user_unit-Fits s.config.nvidia package_ids
                                              (packages k15 (omega arith)))
                                            λ user_unit k16 le16 in16.
                                              >>=-Fits
                                                (when-Fits s.config.nvidia (
                                                  add_nvidia_services-Fits nvidia_ready cdi
                                                    containerd crio (omega arith)))
                                                λ services k17 le17 in17.
                                                  >>=-Fits
                                                    (each-add-Fits _ _ λ name j more. omega arith)
                                                    λ removed k18 le18 in18.
                                                      >>=-Fits
                                                        (rounds-Fits _ s.config.users λ user j more.
                                                          add_user_files-Fits package_ids
                                                            users_ready user.0 user.1.home
                                                            (packages j (omega arith))
                                                            (omega arith))
                                                        λ files k le known.
                                                          let up =
                                                            λ (ids : List ResourceId) (j : ℕ)
                                                            (more : j ≤ k) (h : AreIds ids j).
                                                            AreIds-mono ids more h in
                                                          add-Fits _ (
                                                            AreIds-append
                                                            (key ∷ pin ∷ stale_repo ∷ docker_repo
                                                            ∷ [])
                                                            _ k (omega arith)
                                                            (AreIds-append package_ids _ k
                                                            (up package_ids k8 (omega arith) in8)
                                                            (AreIds-append
                                                            (daemon_json ∷ docker_dropin
                                                            ∷ docker_service ∷ [])
                                                            _ k (omega arith)
                                                            (AreIds-append cleanup _ k
                                                            (up cleanup k15 (omega arith) in15)
                                                            (AreIds-append
                                                            (cdi ∷ containerd ∷ crio ∷ []) _ k
                                                            (omega arith)
                                                            (AreIds-append services _ k
                                                            (up services k17 (omega arith) in17)
                                                            (AreIds-append user_unit _ k
                                                            (up user_unit k16 (omega arith) in16)
                                                            (AreIds-append removed _ k
                                                            (up removed k18 (omega arith) in18)
                                                            (AreIds-flatten files k known)))))))))

pub docker-Fits : (s : Setting) {n : ℕ} → Fits ◌<◌ n (Docker.docker s)
unfolding Docker.docker
docker-Fits s = memoized-Fits "docker" (Docker.build s) (docker_build-Fits s)

node_exporter_build-Fits : (s : Setting) {n : ℕ} → Fits ◌<◌ n (NodeExporter.build s)
unfolding NodeExporter.build
node_exporter_build-Fits s = >>=-Fits (docker-Fits s) λ docker_ready k1 le1 in1.
    >>=-Fits (add-Fits _ (omega arith)) λ unit k2 le2 in2.
      >>=-Fits (add-Fits _ (omega arith)) λ service k3 le3 in3. add-Fits _ (omega arith)

pub node_exporter-Fits : (s : Setting) {n : ℕ} → Fits ◌<◌ n (NodeExporter.node_exporter s)
unfolding NodeExporter.node_exporter
node_exporter-Fits s =
    memoized-Fits "node_exporter" (NodeExporter.build s) (node_exporter_build-Fits s)

smartctl_exporter_register-Fits : (s : Setting) {n : ℕ} → Fits ◌<◌ n (SmartctlExporter.register s)
unfolding SmartctlExporter.register
smartctl_exporter_register-Fits s = >>=-Fits (docker-Fits s) λ docker_ready k1 le1 in1.
    >>=-Fits (add-Fits _ (omega arith)) λ unit k2 le2 in2.
      >>=-Fits (add-Fits _ (omega arith)) λ service k3 le3 in3. add-Fits _ (omega arith)

smartctl_exporter_build-Fits : (s : Setting) {n : ℕ} → Fits ◌<◌ n (SmartctlExporter.build s)
unfolding SmartctlExporter.build
smartctl_exporter_build-Fits s = if-Fits _ (add-Fits _ tt) (smartctl_exporter_register-Fits s)

pub smartctl_exporter-Fits :
    (s : Setting) {n : ℕ} → Fits ◌<◌ n (SmartctlExporter.smartctl_exporter s)
unfolding SmartctlExporter.smartctl_exporter
smartctl_exporter-Fits s =
    memoized-Fits "smartctl_exporter" (SmartctlExporter.build s) (smartctl_exporter_build-Fits s)
