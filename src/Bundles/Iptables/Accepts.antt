-- ===== src/Bundles/Iptables/Accepts.antt =====
-- The lines of the rules of src/bundles/iptables.rs that open a port.
use ansible_playbooks.Common.{ℕ, String, ◌<>◌}
use ansible_playbooks.Common.Text.{decimal}

abbrev tcp : String
tcp = "-A NF_PERSIST_INPUT -m tcp -p tcp --dport "

abbrev udp : String
udp = "-A NF_PERSIST_INPUT -m udp -p udp --dport "

abbrev pub accept_tcp : ℕ → String
accept_tcp port = "-A NF_PERSIST_INPUT -m tcp -p tcp --dport " <> (decimal port <> " -j ACCEPT")

abbrev pub accept_udp : ℕ → String
accept_udp port = "-A NF_PERSIST_INPUT -m udp -p udp --dport " <> (decimal port <> " -j ACCEPT")
