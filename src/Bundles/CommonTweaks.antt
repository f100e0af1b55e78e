-- ===== src/Bundles/CommonTweaks.antt =====
-- src/bundles/common_tweaks.rs
use ansible_playbooks.Common.{
  String, ◌<>◌, Bool, not, str_eq, Option, none, some, List, [], ◌∷◌, ◌++◌,
}
use ansible_playbooks.Resource.Ids.{ResourceId, in_container}
use ansible_playbooks.Backends.Registry.{Resource}
use ansible_playbooks.Backends.Defaults.{
  default_apt_package, default_absent_apt_package, default_command, default_file,
  default_absent_file, default_marker, default_symlink,
}
use ansible_playbooks.Bundles.{Setting, Build, ◌>>=◌, add, each, memoized}
use ansible_playbooks.Bundles.Apt.{apt}
use ansible_playbooks.Bundles.Users.{users}
use ansible_playbooks.Bundles.Tzdata.{tzdata}
use ansible_playbooks.Bundles.CaCert.{ca_cert}
use ansible_playbooks.Bundles.Chrony.{chrony}
use ansible_playbooks.Bundles.Gpg.{gpg}
use ansible_playbooks.Bundles.Locales.{locales}
use ansible_playbooks.Bundles.Apparmor.{apparmor}
use ansible_playbooks.Bundles.Systemd.{systemd}
use ansible_playbooks.Bundles.Nvidia.{nvidia}
use ansible_playbooks.Bundles.Tuxedo.{tuxedo}
use ansible_playbooks.Bundles.ApcUps.{apc_ups}
use ansible_playbooks.Bundles.Iptables.{iptables}
use ansible_playbooks.Bundles.Lvm.{lvm}
use text.Mathlib.Text.{starts_with}
use ansible_playbooks.Common.{filterb, ◌&&◌}
use ansible_playbooks.Common.Text.{ends_with}

unfoldable pub history_sh : String
history_sh =
    "if [[ -n \"$BASH_VERSION\" ]]; then\n"
    <> "    # HIST* variables not really working for regular users\n"
    <> "    # but will be useful for root\n" <> "    # Ignore duplicates in .bash_history\n"
    <> "    export HISTCONTROL=ignoredups 2>/dev/null\n"
    <> "    # The  maximum  number of lines contained in the history file.\n"
    <> "    export HISTFILESIZE=99999 2>/dev/null\n"
    <> "    # Controls output of `history` command end enables time logging in .bash_history\n"
    <> "    export HISTTIMEFORMAT=\"%a, %d %b %Y %T %z \" 2>/dev/null\n" <> "\n"
    <> "    declare LOG2SYSLOG_PREV_COMMAND\n" <> "    declare LOG2SYSLOG_FIRST_RUN=\"yes\"\n"
    <> "\n" <> "    function log2syslog {\n" <> "        # Append to histfile\n"
    <> "        history -a\n" <> "\n" <> "        # Get last command\n"
    <> "        declare COMMAND\n"
    <> "        LAST_HISTORY_UNFORMATTED=$(HISTTIMEFORMAT=\"\" history 1 | awk '{ $1=\"\"; print }')\n"
    <> "        # Remove whitespace from the beginning\n" <> "        # shellcheck disable=SC2116\n"
    <> "        # shellcheck disable=SC2086\n"
    <> "        COMMAND=\"$(echo ${LAST_HISTORY_UNFORMATTED})\"\n" <> "\n"
    <> "        # Return if there is nothing to log\n"
    <> "        test \"$COMMAND\" = \"\" && return\n" <> "\n"
    <> "        # Test if command hasn't been already written to log\n"
    <> "        if ! test \"$COMMAND\" = \"$LOG2SYSLOG_PREV_COMMAND\"\n" <> "        then\n"
    <> "            if test \"$LOG2SYSLOG_FIRST_RUN\" = \"yes\"\n" <> "            then\n"
    <> "                LOG2SYSLOG_FIRST_RUN=\"no\"\n"
    <> "                readonly LOG2SYSLOG_FIRST_RUN\n" <> "            else\n"
    <> "                logger -p local1.notice -t bashhistory -i -- \\\n"
    <> "                    \"${USER}[$$]:$(pwd):$SSH_CONNECTION:${COMMAND}\"\n"
    <> "            fi\n" <> "        fi\n" <> "\n" <> "        LOG2SYSLOG_PREV_COMMAND=$COMMAND\n"
    <> "    }\n" <> "\n" <> "    # shellcheck disable=SC2034\n" <> "    readonly log2syslog\n"
    <> "\n" <> "    export -f log2syslog\n" <> "\n"
    <> "    # Trap executes before and after function.\n"
    <> "    # So if trap successfully enoked it does all the magick right after\n"
    <> "    # command has been started.\n" <> "    trap log2syslog DEBUG\n" <> "\n"
    <> "    # Trap has one security issue: it can be redefined\n" <> "\n"
    <> "    # So here we are using readonly PROMPT_COMMAND to write something to log\n"
    <> "    # even if some bad guy removed trap\n"
    <> "    export PROMPT_COMMAND='log2syslog' 2>/dev/null\n" <> "    readonly PROMPT_COMMAND\n"
    <> "fi\n"

-- `Path::extension` is `sh`: the name ends in `.sh`, and something stands before the dot.
unfoldable pub has_sh_extension : String → Bool
has_sh_extension name = ends_with name ".sh" && not (str_eq name ".sh")

-- `entries.flatten()`, or nothing if the directory cannot be read.
abbrev pub entries : Option (List String) → List String
entries none = []
entries (some names) = names

unfoldable pub is_vte : String → Bool
is_vte name = starts_with name "vte" && has_sh_extension name

-- `build`, behind its first two calls.
unfoldable pub build_rest : Setting → (apt_ready users_ready : ResourceId) → Build ResourceId
build_rest s apt_ready users_ready = do
  tzdata_ready ← tzdata s
  ca_cert_ready ← ca_cert s
  chrony_ready ← chrony s
  gpg_ready ← gpg s
  locales_ready ← locales s
  apparmor_ready ← apparmor s
  systemd_ready ← systemd s
  nvidia_ready ← nvidia s
  tuxedo_ready ← tuxedo s
  apc_ups_ready ← apc_ups s
  iptables_ready ← iptables s
  lvm_ready ← lvm s
  drivers ← add (
      Resource.apt_package
        (record default_apt_package { name = "ubuntu-drivers-common"; deps = apt_ready ∷ [] }))
  sh_link ← add (
      Resource.symlink
        (record default_symlink { path = "/bin/sh"; target = "/bin/bash"; deps = apt_ready ∷ [] }))
  history ← add (
      Resource.file (record default_file {
        path = "/etc/profile.d/history.sh";
        content = history_sh;
        mode = some 0o644;
        deps = apt_ready ∷ [];
      }))
  vte_absents ←
      each
        (λ name. add (
          Resource.absent_file (record default_absent_file {
            path = "/etc/profile.d/" <> name;
            deps = apt_ready ∷ [];
          })))
        (filterb is_vte (entries s.profile_d))
  command_not_found_absent ← add (
      Resource.absent_apt_package
        (record default_absent_apt_package { name = "command-not-found"; deps = apt_ready ∷ [] }))
  sysctl_file ← add (
      Resource.file (record default_file {
        path = "/etc/sysctl.d/99-user.conf";
        content =
            ("fs.inotify.max_user_instances=8192\n" <> "net.ipv4.ping_group_range=1000 10000\n"
              <> "net.core.rmem_max=7340032\n" <> "net.core.wmem_max=7340032\n");
        mode = some 0o644;
        deps = apt_ready ∷ [];
      }))
  sysctl_reload ← add (
      Resource.command (record {
        name = "sysctl --system";
        argv = "sysctl" ∷ "--system" ∷ [];
        trigger_on = some (sysctl_file ∷ []);
        deps = sysctl_file ∷ [];
        skip_when = in_container;
      }))
  drivers_install ← add (
      Resource.command (record default_command {
        name = "ubuntu-drivers install";
        argv = "sh" ∷ "-c" ∷ "DEBIAN_FRONTEND=noninteractive ubuntu-drivers install" ∷ [];
        deps = drivers ∷ [];
        skip_when = in_container;
      }))
  kernel_headers ← add (
      Resource.apt_package (record {
        name = ("linux-headers-" <> s.env.kernel_release);
        deps = apt_ready ∷ [];
        skip_when = in_container;
      }))
  let deps =
      (users_ready ∷ tzdata_ready ∷ ca_cert_ready ∷ chrony_ready ∷ gpg_ready ∷ locales_ready
        ∷ apparmor_ready ∷ systemd_ready ∷ nvidia_ready ∷ tuxedo_ready ∷ apc_ups_ready
        ∷ iptables_ready ∷ lvm_ready ∷ drivers ∷ sh_link ∷ history ∷ command_not_found_absent
        ∷ sysctl_file ∷ sysctl_reload ∷ drivers_install ∷ kernel_headers ∷ [])
      ++ vte_absents
  add (Resource.marker (record default_marker { name = "common_tweaks:ready"; deps = deps }))

unfoldable pub build : Setting → Build ResourceId
build s = do apt_ready ← apt s; users_ready ← users s; build_rest s apt_ready users_ready

-- `Context::common_tweaks`
unfoldable pub common_tweaks : Setting → Build ResourceId
common_tweaks s = memoized "common_tweaks" (build s)
