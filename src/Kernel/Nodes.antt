-- ===== src/Kernel/Nodes.antt =====
-- The nodes of an IR that a kernel router is made from (as deployer/ir_common.py reads them;
-- src/protocol.ts declares them). An optional list that is absent and one that is empty are the same
-- to that code.
use ovn_fabric.Prelude.{ℕ, String, Option, List}
use ovn_fabric.Cluster.Nodes.{GroupRef, GroupNode}

pub data Side : Type 0 where
  left right : Side

-- The interface of a side. `other_iface` is of a kind that is not bindable.
pub data KernelIface : Type 0 where
  vlan : (name : Option String) (parent : String) (vlan_id : ℕ) → KernelIface
  physical : (name : String) → KernelIface
  veth : (short_name : String) (mac : Option String) → KernelIface
  other_iface : (kind : String) → KernelIface

pub record SideRoute : Type 0 where
  pub dst : String
  pub via : Option String
  pub metric : Option ℕ

-- A docker app without an address: its container owns the interfaces of the side. `identity` is the
-- public and the secret text of a zerotier identity, `build` the Dockerfile.
pub record OwningApp : Type 0 where
  pub name : Option String
  pub image : Option String
  pub build : Option String
  pub volumes : List (String × String)
  pub identity : Option (String × String)
  pub run : List String
  pub command : List String

-- `config` of a wireguard app
pub record WireguardConfig : Type 0 where
  pub private_key : String
  pub address : String
  pub listen_port : Option ℕ
  pub dns : Option String
  pub public_key : String
  pub allowed_ips : String
  pub endpoint : String
  pub keepalive : Option ℕ

-- The app of a side: `dhclient` is a DHCP client of that style, `wired` a docker app with an address,
-- `unsupported` an app or style that is skipped.
pub data KernelApp : Type 0 where
  dhclient : KernelApp
  owning : OwningApp → KernelApp
  wired : (router_ip : Option String) → KernelApp
  wireguard :
      (iface_name : Option String) (config : Option WireguardConfig) (groups : List GroupRef)
      → KernelApp
  zerotier : (network_id instance_dir : Option String) (groups : List GroupRef) → KernelApp
  unsupported : KernelApp

-- Of the interfaces only the first counts.
pub record SideNode : Type 0 where
  pub router : String
  pub side : Side
  pub ifaces : List KernelIface
  pub ipaddrs : List String
  pub routes : List SideRoute
  pub security_groups : List GroupRef
  pub apps : List KernelApp

pub record Owner : Type 0 where
  pub id : String
  pub name : String
  pub host : String

-- A veth among the interfaces of a switch or the ports of a bridge.
pub record VethEntry : Type 0 where
  pub iface_name : String
  pub peer_name : String
  pub bridge : String

pub data KernelNode : Type 0 where
  owner_node : Owner → KernelNode
  side_node : SideNode → KernelNode
  group_node : GroupNode → KernelNode
  veth_entries : List VethEntry → KernelNode
  other_node : (kind : String) → KernelNode
