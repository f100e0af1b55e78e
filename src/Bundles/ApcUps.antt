-- ===== src/Bundles/ApcUps.antt =====
-- src/bundles/apc_ups.rs
use ansible_playbooks.Common.{◌<>◌, some, [], ◌∷◌, if◌then◌else◌}
use ansible_playbooks.Resource.Ids.{ResourceId, in_container}
use ansible_playbooks.Backends.Registry.{Resource}
use ansible_playbooks.Backends.Defaults.{default_apt_package, default_file, default_marker}
use ansible_playbooks.Bundles.{Setting, Build, ◌>>=◌, add, memoized}
use ansible_playbooks.Bundles.Apt.{apt}

unfoldable pub register : Setting → Build ResourceId
register s = do
  apt_ready ← apt s
  udev_pkg ←
      add
        (Resource.apt_package (record default_apt_package { name = "udev"; deps = apt_ready ∷ [] }))
  rule ← add (
      Resource.file (record default_file {
        path = "/etc/udev/rules.d/99-apc-ups.rules";
        content =
            ("# APC UPS devices\n"
              <> "SUBSYSTEM==\"usb\", ATTRS{idVendor}==\"051d\", GROUP=\"dialout\", MODE=\"0664\"\n"
              <> "SUBSYSTEM==\"hidraw\", ATTRS{idVendor}==\"051d\", GROUP=\"dialout\", MODE=\"0664\"\n"
              <> "KERNEL==\"hiddev*\", ATTRS{idVendor}==\"051d\", GROUP=\"dialout\", MODE=\"0664\"");
        mode = some 0o644;
        deps = udev_pkg ∷ [];
      }))
  udev_reload ← add (
      Resource.command (record {
        name = "udevadm reload-rules + trigger (apc-ups)";
        argv = "sh" ∷ "-c" ∷ "udevadm control --reload-rules && udevadm trigger" ∷ [];
        trigger_on = some (rule ∷ []);
        deps = rule ∷ [];
        skip_when = in_container;
      }))
  add (
      Resource.marker (record default_marker {
        name = "apc_ups:ready";
        deps = udev_pkg ∷ rule ∷ udev_reload ∷ [];
      }))

unfoldable pub build : Setting → Build ResourceId
build s =
    if s.env.is_container
    then add (Resource.marker (record default_marker { name = "apc_ups:ready"; deps = [] }))
    else register s

-- `Context::apc_ups`
unfoldable pub apc_ups : Setting → Build ResourceId
apc_ups s = memoized "apc_ups" (build s)
