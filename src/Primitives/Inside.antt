-- ===== src/Primitives/Inside.antt =====
-- deployer/primitives_host.py, the methods of `NetnsPrimitive`: the objects inside a namespace. Those
-- that need a namespace with a name are refused in the root namespace (their `ValueError`).
use ovn_fabric.Prelude.{ℕ, String, Bool, Option, some, List, ◌>>=◌}
use ovn_fabric.Primitives.Net.{
  NetObject, sysctl, wireguard, dhclient, iptables_rule, ip_rule, link_move,
}
use ovn_fabric.Primitives.NetnsLink.{NetnsLink, LinkKind}
use ovn_fabric.Primitives.Netns.{Namespace, Link, Vlan}
use ovn_fabric.Primitives.Routing.{Addr, Route, SysctlFile}

unfoldable pub add_if :
    Namespace → (name kind : String) → (peer mac : Option String) → (up : Bool) → Link
add_if n name kind peer mac up = record {
  host = n.host;
  netns = n.name;
  name = name;
  kind = kind;
  peer = peer;
  mac = mac;
  up = up;
}

unfoldable pub add_vlan : Namespace → (parent name : String) → (vlan_id : ℕ) → Vlan
add_vlan n parent name vlan_id = record {
  host = n.host;
  netns = n.name;
  parent = parent;
  name = name;
  vlan_id = vlan_id;
}

unfoldable pub add_link :
    Namespace
    → (name : String) → LinkKind
    → (rename_to parent : Option String) → (vlan_id : Option ℕ)
    → (mac root_leg bridge : Option String) → Option NetnsLink
add_link n name kind rename_to parent vlan_id mac root_leg bridge = n.name >>= λ netns.
    some (record {
      host = n.host;
      netns = netns;
      name = name;
      kind = kind;
      rename_to = rename_to;
      parent = parent;
      vlan_id = vlan_id;
      mac = mac;
      root_leg = root_leg;
      bridge = bridge;
    })

unfoldable pub add_addr : Namespace → (link addr : String) → Addr
add_addr n link addr = record { host = n.host; netns = n.name; link = link; addr = addr }

unfoldable pub add_route :
    Namespace
    → (dst dev : String) → (via : Option String) → (metric table family : Option ℕ) → Route
add_route n dst dev via metric table family = record {
  host = n.host;
  netns = n.name;
  dst = dst;
  dev = dev;
  via = via;
  metric = metric;
  table = table;
  family = family;
}

unfoldable pub set_sysctl_file : Namespace → (path value : String) → Option SysctlFile
set_sysctl_file n path value =
    n.name >>= λ netns. some (record { host = n.host; netns = netns; path = path; value = value })

unfoldable pub start_dhclient : Namespace → (dev lease : String) → Option NetObject
start_dhclient n dev lease = n.name >>= λ netns. some (dhclient n.host netns dev lease)

unfoldable pub start_wireguard : Namespace → (iface conf_path : String) → Option NetObject
start_wireguard n iface conf_path =
    n.name >>= λ netns. some (wireguard n.host netns iface conf_path)

unfoldable pub add_ip_rule : Namespace → (source : String) → (table family : ℕ) → NetObject
add_ip_rule n source table family = ip_rule n.host n.name source table family

-- A link lent to another namespace: both need a name.
unfoldable pub move_link : Namespace → (name : String) → Namespace → Option NetObject
move_link n name to =
    n.name >>= λ netns. to.name >>= λ target. some (link_move n.host netns name target)

unfoldable pub set_sysctl : Namespace → (key value : String) → Option NetObject
set_sysctl n key value = n.name >>= λ netns. some (sysctl n.host netns key value)

unfoldable pub add_rule :
    Namespace → (binary table chain : String) → (args : List String) → Option NetObject
add_rule n binary table chain args =
    n.name >>= λ netns. some (iptables_rule n.host netns binary table chain args)
