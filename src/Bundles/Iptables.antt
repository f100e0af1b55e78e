-- ===== src/Bundles/Iptables.antt =====
-- src/bundles/iptables.rs
pub mod Rules
pub mod Lines
pub mod Accepts
use ansible_playbooks.Common.{
  ℕ, String, ◌<>◌, Bool, true, false, not, str_eq, Option, none, some, List, [], ◌∷◌, ◌++◌, get_or,
  if◌then◌else◌,
}
use ansible_playbooks.Resource.Ids.{ResourceId, never, in_container}
use ansible_playbooks.Backends.Registry.{Resource}
use ansible_playbooks.Backends.Defaults.{
  default_apt_package, default_absent_apt_package, default_apt_repo, default_command,
  default_directory, default_download, default_file, default_absent_file, default_line_in_file,
  default_marker, default_service, default_symlink, default_systemd_unit, default_user,
}
use ansible_playbooks.Bundles.{Setting, Build, pure, ◌>>=◌, add, each, memoized}
use ansible_playbooks.Bundles.Apt.{apt}
use ansible_playbooks.Bundles.Tailscale.{tailscale}
use ansible_playbooks.Bundles.Iptables.Rules.{render_rules_v4, render_rules_v6}

unfoldable pub register : Setting → Build ResourceId
register s = do
  apt_ready ← apt s
  tailscale_ready ← tailscale s
  pkg ← add (
      Resource.apt_package (record default_apt_package {
        name = "iptables-persistent";
        deps = apt_ready ∷ tailscale_ready ∷ [];
      }))
  netfilter_default ← add (
      Resource.file (record default_file {
        path = "/etc/default/netfilter-persistent";
        content =
            ("FLUSH_ON_STOP=0\n" <> "IPTABLES_SKIP_SAVE=yes\n" <> "IP6TABLES_SKIP_SAVE=yes\n"
              <> "IPSET_SKIP_SAVE=yes\n" <> "IPTABLES_RESTORE_NOFLUSH=yes\n"
              <> "IP6TABLES_RESTORE_NOFLUSH=yes\n" <> "IPTABLES_TEST_RULESET=yes\n"
              <> "IP6TABLES_TEST_RULESET=yes\n");
        mode = some 0o644;
        deps = pkg ∷ [];
      }))
  rules_v4 ← add (
      Resource.file (record default_file {
        path = "/etc/iptables/rules.v4";
        content = render_rules_v4 s.config.iptables_open_ports;
        mode = some 0o640;
        deps = pkg ∷ [];
      }))
  rules_v6 ← add (
      Resource.file (record default_file {
        path = "/etc/iptables/rules.v6";
        content = render_rules_v6 s.config.iptables_open_ports;
        mode = some 0o640;
        deps = pkg ∷ [];
      }))
  service ← add (
      Resource.service (record {
        name = "netfilter-persistent.service";
        enabled = true;
        started = true;
        restart_on = netfilter_default ∷ rules_v4 ∷ rules_v6 ∷ [];
        deps = pkg ∷ netfilter_default ∷ rules_v4 ∷ rules_v6 ∷ [];
        skip_when = in_container;
      }))
  add (
      Resource.marker (record default_marker {
        name = "iptables:ready";
        deps = pkg ∷ netfilter_default ∷ rules_v4 ∷ rules_v6 ∷ service ∷ [];
      }))

unfoldable pub build : Setting → Build ResourceId
build s =
    if s.env.is_container
    then add (Resource.marker (record default_marker { name = "iptables:ready"; deps = [] }))
    else register s

-- `Context::iptables`
unfoldable pub iptables : Setting → Build ResourceId
iptables s = memoized "iptables" (build s)
