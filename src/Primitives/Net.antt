-- ===== src/Primitives/Net.antt =====
-- deployer/primitives_net.py: links, rules and daemons inside a network namespace.
use ovn_fabric.Prelude.{ℕ, String, ◌<>◌, true, Option, none, some, List, [], ◌∷◌, join, str}
use ovn_fabric.Value.{text, num, bool, arr, nil, end, field}
use ovn_fabric.Lifecycle.{Primitive}
use ovn_fabric.Ladops.Net.{netns_exec_argv}
use ovn_fabric.Primitives.Build.{texts, cmd, text_list}

abbrev pub global_netns : String
global_netns = "*global*"

unfoldable pub ns_arg : Option String → String
ns_arg none = global_netns
ns_arg (some netns) = netns

pub data NetObject : Type 0 where
  sysctl : (host netns key value : String) → NetObject
  wireguard : (host netns iface conf_path : String) → NetObject
  dhclient : (host netns dev lease : String) → NetObject
  iptables_rule : (host netns binary table chain : String) (args : List String) → NetObject
  ip_rule : (host : String) (netns : Option String) (source : String) (table family : ℕ) → NetObject
  link_move : (host netns name to : String) → NetObject

-- `key` (or `ref`) of each class
unfoldable pub net_key : NetObject → String
unfolding ns_arg str join
net_key (sysctl host netns key value) = "sysctl:" <> netns <> "|" <> key
net_key (wireguard host netns iface conf_path) = "wireguard:" <> netns <> "|" <> iface
net_key (dhclient host netns dev lease) = "dhclient:" <> netns <> "|" <> dev
net_key (iptables_rule host netns binary table chain args) =
    "iptables.rule:"
    <> netns
    <> "|"
    <> binary
    <> "|"
    <> table
    <> "|"
    <> chain
    <> "|"
    <> join " " args
net_key (ip_rule host netns source table family) =
    "ip.rule:" <> ns_arg netns <> "|" <> str family <> "|" <> source <> "|" <> str table
net_key (link_move host netns name to) = "link:" <> to <> "|" <> name

unfoldable pub sysctl_primitive : (host netns key value : String) → Primitive
unfolding net_key
sysctl_primitive host netns key value = record {
  key = net_key (sysctl host netns key value);
  nodes =
      record {
        id = net_key (sysctl host netns key value);
        kind = "sysctl";
        fields =
            field "netnsRef" (text ("netns:" <> netns))
              (field "key" (text key) (field "value" (text value) end));
      }
      ∷ [];
  create_cmds =
      cmd (host <> ":sysctl " <> key)
        (netns_exec_argv ("sysctl" ∷ "-w" ∷ (key <> "=" <> value) ∷ []) (some netns))
      ∷ [];
  delete_cmds = [];
}

unfoldable pub wireguard_primitive : (host netns iface conf_path : String) → Primitive
unfolding net_key
wireguard_primitive host netns iface conf_path = record {
  key = net_key (wireguard host netns iface conf_path);
  nodes =
      record {
        id = net_key (wireguard host netns iface conf_path);
        kind = "wireguard";
        fields =
            field "netnsRef" (text ("netns:" <> netns))
              (field "iface" (text iface) (field "confPath" (text conf_path) end));
      }
      ∷ [];
  create_cmds =
      cmd (host <> ":wireguard " <> iface <> " (up)")
        (netns_exec_argv ("wg-quick" ∷ "up" ∷ conf_path ∷ []) (some netns))
      ∷ [];
  delete_cmds =
      cmd (host <> ":wireguard " <> iface <> " (down)")
        (netns_exec_argv ("wg-quick" ∷ "down" ∷ conf_path ∷ []) (some netns))
      ∷ [];
}

unfoldable pub dhclient_primitive : (host netns dev lease : String) → Primitive
unfolding net_key
dhclient_primitive host netns dev lease = record {
  key = net_key (dhclient host netns dev lease);
  nodes =
      record {
        id = net_key (dhclient host netns dev lease);
        kind = "dhclient";
        fields = field "netnsRef" (text ("netns:" <> netns)) (
            field "linkRef" (text ("link:" <> netns <> "|" <> dev))
              (field "lease" (text lease) end));
      }
      ∷ [];
  create_cmds =
      cmd (host <> ":dhclient " <> dev)
        (netns_exec_argv ("/usr/sbin/dhclient" ∷ "-lf" ∷ lease ∷ "-d" ∷ dev ∷ []) (some netns))
      ∷ [];
  delete_cmds =
      cmd (host <> ":dhclient " <> dev <> " (release)")
        (netns_exec_argv ("/usr/sbin/dhclient" ∷ "-lf" ∷ lease ∷ "-r" ∷ dev ∷ []) (some netns))
      ∷ [];
}

iptables_argv : (netns binary table chain : String) → List String → String → List String
iptables_argv netns binary table chain args verb =
    netns_exec_argv (binary ∷ "-t" ∷ table ∷ verb ∷ chain ∷ args) (some netns)

unfoldable pub iptables_primitive :
    (host netns binary table chain : String) → List String → Primitive
unfolding iptables_argv net_key
iptables_primitive host netns binary table chain args = record {
  key = net_key (iptables_rule host netns binary table chain args);
  nodes =
      record {
        id = net_key (iptables_rule host netns binary table chain args);
        kind = "iptables.rule";
        fields = field "netnsRef" (text ("netns:" <> netns)) (
            field "binary" (text binary) (
              field "table" (text table)
                (field "chain" (text chain) (field "args" (text_list args) end))));
      }
      ∷ [];
  create_cmds =
      cmd (host <> ":" <> binary <> " " <> chain) (iptables_argv netns binary table chain args "-A")
      ∷ [];
  delete_cmds =
      cmd (host <> ":" <> binary <> " " <> chain <> " (delete)")
        (iptables_argv netns binary table chain args "-D")
      ∷ [];
}

ip_rule_argv : Option String → (source : String) → (table family : ℕ) → String → List String
unfolding str
ip_rule_argv netns source table family verb =
    netns_exec_argv
      ("ip" ∷ ("-" <> str family) ∷ "rule" ∷ verb ∷ "from" ∷ source ∷ "lookup" ∷ str table ∷ [])
      netns

unfoldable pub ip_rule_primitive :
    String → Option String → (source : String) → (table family : ℕ) → Primitive
unfolding ip_rule_argv net_key
ip_rule_primitive host netns source table family = record {
  key = net_key (ip_rule host netns source table family);
  nodes =
      record {
        id = net_key (ip_rule host netns source table family);
        kind = "ip.rule";
        fields = field "netnsRef" (text ("netns:" <> ns_arg netns)) (
            field "family" (num family)
              (field "source" (text source) (field "table" (num table) end)));
      }
      ∷ [];
  create_cmds =
      cmd (host <> ":ip rule " <> source) (ip_rule_argv netns source table family "add") ∷ [];
  delete_cmds =
      cmd (host <> ":ip rule " <> source <> " (delete)")
        (ip_rule_argv netns source table family "del")
      ∷ [];
}

unfoldable pub link_move_primitive : (host netns name to : String) → Primitive
unfolding net_key
link_move_primitive host netns name to = record {
  key = net_key (link_move host netns name to);
  nodes =
      record {
        id = net_key (link_move host netns name to);
        kind = "link";
        fields = field "netnsRef" (text ("netns:" <> to)) (
            field "ifname" (text name) (
              field "ifindex" (num 0) (
                field "linkKind" (text "other")
                  (field "peerRefs" (arr nil) (field "adminUp" (bool true) end)))));
      }
      ∷ [];
  create_cmds =
      cmd (host <> ":link " <> name <> " -> " <> to)
        (netns_exec_argv ("ip" ∷ "link" ∷ "set" ∷ name ∷ "netns" ∷ to ∷ []) (some netns))
      ∷ cmd (host <> ":link " <> name <> " (up)")
          (netns_exec_argv ("ip" ∷ "link" ∷ "set" ∷ name ∷ "up" ∷ []) (some to))
      ∷ [];
  delete_cmds =
      record {
        label = host <> ":link " <> name <> " -> " <> netns;
        argv =
            texts (netns_exec_argv ("ip" ∷ "link" ∷ "set" ∷ name ∷ "netns" ∷ netns ∷ []) (some to));
        optional = true;
        timeout = none;
      }
      ∷ [];
}

-- `as_primitive` of each class
unfoldable pub net_primitive : NetObject → Primitive
unfolding sysctl_primitive wireguard_primitive dhclient_primitive iptables_primitive
    ip_rule_primitive link_move_primitive
net_primitive (sysctl host netns key value) = sysctl_primitive host netns key value
net_primitive (wireguard host netns iface conf_path) =
    wireguard_primitive host netns iface conf_path
net_primitive (dhclient host netns dev lease) = dhclient_primitive host netns dev lease
net_primitive (iptables_rule host netns binary table chain args) =
    iptables_primitive host netns binary table chain args
net_primitive (ip_rule host netns source table family) =
    ip_rule_primitive host netns source table family
net_primitive (link_move host netns name to) = link_move_primitive host netns name to
