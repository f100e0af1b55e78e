-- ===== src/Bundles/Iptables/Rules.antt =====
-- The rules of src/bundles/iptables.rs, with the ports of the config.
use ansible_playbooks.Common.{ℕ, String, ◌<>◌, List, [], ◌∷◌}
use ansible_playbooks.Common.Text.{decimal}
use ansible_playbooks.Config.{IptablesPorts}

unfoldable pub render_local_tcp_v4 : List ℕ → String
render_local_tcp_v4 [] = ""
render_local_tcp_v4 (port ∷ ports) =
    "-A NF_PERSIST_INPUT -m tcp -p tcp -s 192.168.0.0/16 --dport "
    <> decimal port
    <> " -j ACCEPT\n"
    <> "-A NF_PERSIST_INPUT -m tcp -p tcp -s 172.16.0.0/12 --dport "
    <> decimal port
    <> " -j ACCEPT\n"
    <> "-A NF_PERSIST_INPUT -m tcp -p tcp -s 10.0.0.0/8 --dport "
    <> decimal port
    <> " -j ACCEPT\n"
    <> render_local_tcp_v4 ports

unfoldable pub render_local_udp_v4 : List ℕ → String
render_local_udp_v4 [] = ""
render_local_udp_v4 (port ∷ ports) =
    "-A NF_PERSIST_INPUT -m udp -p udp -s 192.168.0.0/16 --dport "
    <> decimal port
    <> " -j ACCEPT\n"
    <> "-A NF_PERSIST_INPUT -m udp -p udp -s 172.16.0.0/12 --dport "
    <> decimal port
    <> " -j ACCEPT\n"
    <> "-A NF_PERSIST_INPUT -m udp -p udp -s 10.0.0.0/8 --dport "
    <> decimal port
    <> " -j ACCEPT\n"
    <> render_local_udp_v4 ports

unfoldable pub render_local_tcp_v6 : List ℕ → String
render_local_tcp_v6 [] = ""
render_local_tcp_v6 (port ∷ ports) =
    "-A NF_PERSIST_INPUT -m tcp -p tcp -s fd00::/8 --dport "
    <> decimal port
    <> " -j ACCEPT\n"
    <> "-A NF_PERSIST_INPUT -m tcp -p tcp -s fe80::/10 --dport "
    <> decimal port
    <> " -j ACCEPT\n"
    <> render_local_tcp_v6 ports

unfoldable pub render_local_udp_v6 : List ℕ → String
render_local_udp_v6 [] = ""
render_local_udp_v6 (port ∷ ports) =
    "-A NF_PERSIST_INPUT -m udp -p udp -s fd00::/8 --dport "
    <> decimal port
    <> " -j ACCEPT\n"
    <> "-A NF_PERSIST_INPUT -m udp -p udp -s fe80::/10 --dport "
    <> decimal port
    <> " -j ACCEPT\n"
    <> render_local_udp_v6 ports

unfoldable pub render_remote_tcp : List ℕ → String
render_remote_tcp [] = ""
render_remote_tcp (port ∷ ports) =
    "-A NF_PERSIST_INPUT -m tcp -p tcp --dport "
    <> decimal port
    <> " -j ACCEPT\n"
    <> render_remote_tcp ports

unfoldable pub render_remote_udp : List ℕ → String
render_remote_udp [] = ""
render_remote_udp (port ∷ ports) =
    "-A NF_PERSIST_INPUT -m udp -p udp --dport "
    <> decimal port
    <> " -j ACCEPT\n"
    <> render_remote_udp ports

unfoldable pub rules_v4_before : String
rules_v4_before =
    "*mangle\n" <> ":PREROUTING ACCEPT [0:0]\n" <> ":INPUT ACCEPT [0:0]\n"
    <> ":FORWARD ACCEPT [0:0]\n" <> ":OUTPUT ACCEPT [0:0]\n" <> ":POSTROUTING ACCEPT [0:0]\n"
    <> "COMMIT\n" <> "*nat\n" <> ":NF_PERSIST_POSTROUTING - [0:0]\n"
    <> "# Do not forward locally generated packets\n"
    <> "-A NF_PERSIST_POSTROUTING -m addrtype --src-type LOCAL -j RETURN\n" <> "\n"
    <> "# Do not forward packets to internal networks (for security reasons)\n"
    <> "-A NF_PERSIST_POSTROUTING -o lo -j RETURN\n"
    <> "-A NF_PERSIST_POSTROUTING -o docker+ -j RETURN\n"
    <> "-A NF_PERSIST_POSTROUTING -o lxcbr+ -j RETURN\n"
    <> "-A NF_PERSIST_POSTROUTING -o virbr+ -j RETURN\n"
    <> "-A NF_PERSIST_POSTROUTING -o br-+ -j RETURN\n" <> "\n"
    <> "-A NF_PERSIST_POSTROUTING -j MASQUERADE\n" <> ":PREROUTING ACCEPT [0:0]\n"
    <> ":INPUT ACCEPT [0:0]\n" <> ":OUTPUT ACCEPT [0:0]\n" <> ":POSTROUTING ACCEPT [0:0]\n"
    <> "-A POSTROUTING -j NF_PERSIST_POSTROUTING\n" <> "COMMIT\n" <> "*filter\n"
    <> ":NF_PERSIST_INPUT - [0:0]\n" <> "-A NF_PERSIST_INPUT ! -i lo -s 127.0.0.0/8 -j DROP\n"
    <> "-A NF_PERSIST_INPUT -i lo -j ACCEPT\n"
    <> "-A NF_PERSIST_INPUT -m conntrack --ctstate INVALID -j DROP\n"
    <> "-A NF_PERSIST_INPUT -m conntrack --ctstate ESTABLISHED,RELATED -j ACCEPT\n"

unfoldable pub rules_v4_after : String
rules_v4_after =
    "-A NF_PERSIST_INPUT -p icmp --icmp-type 8 -j ACCEPT\n"
    <> "-A NF_PERSIST_INPUT -i docker+ -j ACCEPT\n" <> "-A NF_PERSIST_INPUT -i lxcbr+ -j ACCEPT\n"
    <> "-A NF_PERSIST_INPUT -i virbr+ -j ACCEPT\n" <> "-A NF_PERSIST_INPUT -i br-+ -j ACCEPT\n"
    <> "-A NF_PERSIST_INPUT -j DROP\n" <> ":NF_PERSIST_FORWARD - [0:0]\n"
    <> "-A NF_PERSIST_FORWARD -m conntrack --ctstate INVALID -j DROP\n"
    <> "-A NF_PERSIST_FORWARD -m conntrack --ctstate ESTABLISHED,RELATED -j ACCEPT\n"
    <> "-A NF_PERSIST_FORWARD -i lo -j ACCEPT\n" <> "-A NF_PERSIST_FORWARD -i docker+ -j ACCEPT\n"
    <> "-A NF_PERSIST_FORWARD -i lxcbr+ -j ACCEPT\n"
    <> "-A NF_PERSIST_FORWARD -i virbr+ -j ACCEPT\n" <> "-A NF_PERSIST_FORWARD -i br-+ -j ACCEPT\n"
    <> "-A NF_PERSIST_FORWARD -i veth+ -j ACCEPT\n" <> "-A NF_PERSIST_FORWARD -j DROP\n"
    <> ":INPUT DROP [0:0]\n" <> "-A INPUT -j NF_PERSIST_INPUT\n" <> ":FORWARD DROP [0:0]\n"
    <> "-A FORWARD -j NF_PERSIST_FORWARD\n" <> ":OUTPUT ACCEPT [0:0]\n" <> "COMMIT\n" <> "\n"

unfoldable pub render_rules_v4 : IptablesPorts → String
render_rules_v4 ports =
    rules_v4_before
    <> render_remote_tcp ports.remote.tcp
    <> render_local_tcp_v4 ports.local.tcp
    <> render_remote_udp ports.remote.udp
    <> render_local_udp_v4 ports.local.udp
    <> rules_v4_after

unfoldable pub rules_v6_before : String
rules_v6_before =
    "*mangle\n" <> ":PREROUTING ACCEPT [0:0]\n" <> ":INPUT ACCEPT [0:0]\n"
    <> ":FORWARD ACCEPT [0:0]\n" <> ":OUTPUT ACCEPT [0:0]\n" <> ":POSTROUTING ACCEPT [0:0]\n"
    <> "COMMIT\n" <> "*nat\n" <> ":NF_PERSIST_POSTROUTING - [0:0]\n"
    <> "# Do not forward locally generated packets\n"
    <> "-A NF_PERSIST_POSTROUTING -m addrtype --src-type LOCAL -j RETURN\n" <> "\n"
    <> "# Do not forward packets to internal networks (for security reasons)\n"
    <> "-A NF_PERSIST_POSTROUTING -o lo -j RETURN\n"
    <> "-A NF_PERSIST_POSTROUTING -o docker+ -j RETURN\n"
    <> "-A NF_PERSIST_POSTROUTING -o lxcbr+ -j RETURN\n"
    <> "-A NF_PERSIST_POSTROUTING -o virbr+ -j RETURN\n"
    <> "-A NF_PERSIST_POSTROUTING -o br-+ -j RETURN\n" <> "\n"
    <> "-A NF_PERSIST_POSTROUTING -j MASQUERADE\n" <> ":PREROUTING ACCEPT [0:0]\n"
    <> ":INPUT ACCEPT [0:0]\n" <> ":OUTPUT ACCEPT [0:0]\n" <> ":POSTROUTING ACCEPT [0:0]\n"
    <> "-A POSTROUTING -j NF_PERSIST_POSTROUTING\n" <> "COMMIT\n" <> "*filter\n"
    <> ":NF_PERSIST_INPUT - [0:0]\n" <> "-A NF_PERSIST_INPUT ! -i lo -s ::1/128 -j DROP\n"
    <> "-A NF_PERSIST_INPUT -i lo -j ACCEPT\n"
    <> "-A NF_PERSIST_INPUT -p icmpv6 --icmpv6-type destination-unreachable -j ACCEPT\n"
    <> "-A NF_PERSIST_INPUT -p icmpv6 --icmpv6-type packet-too-big -j ACCEPT\n"
    <> "-A NF_PERSIST_INPUT -p icmpv6 --icmpv6-type time-exceeded -j ACCEPT\n"
    <> "-A NF_PERSIST_INPUT -p icmpv6 --icmpv6-type parameter-problem -j ACCEPT\n"
    <> "-A NF_PERSIST_INPUT -p icmpv6 --icmpv6-type echo-request -j ACCEPT\n"
    <> "-A NF_PERSIST_INPUT -p icmpv6 --icmpv6-type echo-reply -j ACCEPT\n"
    <> "-A NF_PERSIST_INPUT -p icmpv6 --icmpv6-type router-advertisement -m hl --hl-eq 255 -j ACCEPT\n"
    <> "-A NF_PERSIST_INPUT -p icmpv6 --icmpv6-type neighbor-solicitation -m hl --hl-eq 255 -j ACCEPT\n"
    <> "-A NF_PERSIST_INPUT -p icmpv6 --icmpv6-type neighbor-advertisement -m hl --hl-eq 255 -j ACCEPT\n"
    <> "-A NF_PERSIST_INPUT -p icmpv6 --icmpv6-type redirect -m hl --hl-eq 255 -j ACCEPT\n"
    <> "-A NF_PERSIST_INPUT -m conntrack --ctstate INVALID -j DROP\n"
    <> "-A NF_PERSIST_INPUT -m conntrack --ctstate ESTABLISHED,RELATED -j ACCEPT\n"

unfoldable pub rules_v6_after : String
rules_v6_after =
    "\n" <> "-A NF_PERSIST_INPUT -i docker+ -j ACCEPT\n"
    <> "-A NF_PERSIST_INPUT -i lxcbr+ -j ACCEPT\n" <> "-A NF_PERSIST_INPUT -i virbr+ -j ACCEPT\n"
    <> "-A NF_PERSIST_INPUT -i br-+ -j ACCEPT\n" <> "-A NF_PERSIST_INPUT -j DROP\n"
    <> ":NF_PERSIST_FORWARD - [0:0]\n"
    <> "-A NF_PERSIST_FORWARD -m conntrack --ctstate INVALID -j DROP\n"
    <> "-A NF_PERSIST_FORWARD -m conntrack --ctstate ESTABLISHED,RELATED -j ACCEPT\n"
    <> "-A NF_PERSIST_FORWARD -i lo -j ACCEPT\n" <> "-A NF_PERSIST_FORWARD -i docker+ -j ACCEPT\n"
    <> "-A NF_PERSIST_FORWARD -i lxcbr+ -j ACCEPT\n"
    <> "-A NF_PERSIST_FORWARD -i virbr+ -j ACCEPT\n" <> "-A NF_PERSIST_FORWARD -i br-+ -j ACCEPT\n"
    <> "-A NF_PERSIST_FORWARD -j DROP\n" <> ":INPUT DROP [0:0]\n"
    <> "-A INPUT -j NF_PERSIST_INPUT\n" <> ":FORWARD DROP [0:0]\n"
    <> "-A FORWARD -j NF_PERSIST_FORWARD\n" <> ":OUTPUT ACCEPT [0:0]\n" <> "COMMIT\n"

unfoldable pub render_rules_v6 : IptablesPorts → String
render_rules_v6 ports =
    rules_v6_before
    <> render_remote_tcp ports.remote.tcp
    <> render_local_tcp_v6 ports.local.tcp
    <> render_remote_udp ports.remote.udp
    <> render_local_udp_v6 ports.local.udp
    <> rules_v6_after
