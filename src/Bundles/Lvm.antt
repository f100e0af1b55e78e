-- ===== src/Bundles/Lvm.antt =====
-- src/bundles/lvm.rs
use ansible_playbooks.Common.{◌<>◌, true, [], ◌∷◌}
use ansible_playbooks.Resource.Ids.{ResourceId, in_container}
use ansible_playbooks.Backends.Registry.{Resource}
use ansible_playbooks.Backends.Defaults.{default_apt_package, default_marker}
use ansible_playbooks.Bundles.{Setting, Build, ◌>>=◌, add, memoized}
use ansible_playbooks.Bundles.Apt.{apt}
use ansible_playbooks.Bundles.Systemd.{systemd}

unfoldable pub build : Setting → Build ResourceId
build s = do
  apt_ready ← apt s
  systemd_ready ← systemd s
  lvm2 ←
      add
        (Resource.apt_package (record default_apt_package { name = "lvm2"; deps = apt_ready ∷ [] }))
  service_unit ← add (
      Resource.systemd_unit (record {
        name = "lvm-raid-check.service";
        content =
            ("[Unit]\n" <> "Description=Throttled rolling check of all active LVM raid LVs\n"
              <> "\n" <> "[Service]\n" <> "Type=oneshot\n"
              <> "ExecStart=/bin/sh -c 'lvs --noheadings -o lv_full_name -S \"lv_attr=~^[rR] && lv_active=active && raid_sync_action!=idle && raid_sync_action!=check\" | xargs -r -n1 lvchange --quiet --maxrecoveryrate 0'\n"
              <> "ExecStart=/bin/sh -c 'lvs --noheadings -o lv_full_name -S \"lv_attr=~^[rR] && lv_active=active && raid_sync_action=idle\" | xargs -r -n1 lvchange --quiet --maxrecoveryrate 8M'\n"
              <> "ExecStart=/bin/sh -c 'lvs --noheadings -o lv_full_name -S \"lv_attr=~^[rR] && lv_active=active && raid_sync_action=idle\" | xargs -r -n1 lvchange --quiet --syncaction check'\n");
        deps = lvm2 ∷ systemd_ready ∷ [];
        skip_when = in_container;
      }))
  timer_unit ← add (
      Resource.systemd_unit (record {
        name = "lvm-raid-check.timer";
        content =
            ("[Unit]\n" <> "Description=Throttled rolling check of all active LVM raid LVs\n"
              <> "\n" <> "[Timer]\n" <> "OnCalendar=*:0/15\n" <> "Persistent=true\n" <> "\n"
              <> "[Install]\n" <> "WantedBy=timers.target\n");
        deps = lvm2 ∷ systemd_ready ∷ [];
        skip_when = in_container;
      }))
  timer ← add (
      Resource.service (record {
        name = "lvm-raid-check.timer";
        enabled = true;
        started = true;
        restart_on = service_unit ∷ timer_unit ∷ [];
        deps = service_unit ∷ timer_unit ∷ [];
        skip_when = in_container;
      }))
  add (
      Resource.marker (record default_marker {
        name = "lvm:ready";
        deps = lvm2 ∷ service_unit ∷ timer_unit ∷ timer ∷ [];
      }))

-- `Context::lvm`
unfoldable pub lvm : Setting → Build ResourceId
lvm s = memoized "lvm" (build s)
