-- ===== src/Cluster/Nodes.antt =====
-- The nodes of an IR that the cluster is made from (as deployer/ir_common.py reads them; src/protocol.ts
-- declares them). An optional list that is absent and one that is empty are the same to that code.
use ovn_fabric.Prelude.{ℕ, String, Bool, Option, List}

-- A field of an OVN settings record.
pub data Setting : Type 0 where
  flag : Bool → Setting
  number : ℕ → Setting
  word : String → Setting

abbrev pub Settings : Type 0
Settings = List (String × Option Setting)

-- An interface of a switch: its host and its kind.
pub record Binding : Type 0 where
  pub host : String
  pub kind : String

pub data Render : Type 0 where
  for_kernel for_ovn : Render

pub record GroupRef : Type 0 where
  pub name : String
  pub render : Render

pub data Direction : Type 0 where
  input output forward : Direction

pub data AclAction : Type 0 where
  allow deny reject : AclAction

pub data Family : Type 0 where
  ipv4 ipv6 : Family

pub data Protocol : Type 0 where
  tcp udp icmp icmpv6 : Protocol

pub record PortRange : Type 0 where
  pub first : ℕ
  pub last : ℕ

pub record FilterRule : Type 0 where
  pub direction : Direction
  pub action : AclAction
  pub family : Family
  pub sources : List String
  pub exclude_sources : List String
  pub destinations : List String
  pub protocol : Option Protocol
  pub ports : List PortRange
  pub priority : Option ℕ

pub data Rule : Type 0 where
  masq : Family → Rule
  snat : (external_ip : String) (logical_ips : List String) → Rule
  filter_rule : FilterRule → Rule

pub record Defaults : Type 0 where
  pub input : Option AclAction
  pub output : Option AclAction
  pub forward : Option AclAction

pub record SwitchNode : Type 0 where
  pub id : String
  pub name : String
  pub interfaces : List Binding

pub record RouterNode : Type 0 where
  pub name : String
  pub options : Settings
  pub security_groups : List GroupRef

pub record PortNode : Type 0 where
  pub router : String
  pub name : String
  pub mac : String
  pub addresses : List String
  pub segment : String
  pub gateway_chassis : Option String
  pub ra_configs : Option Settings

pub record RouteNode : Type 0 where
  pub router : String
  pub prefix : String
  pub nexthop : String
  pub metric : ℕ
  pub domain : String

pub record GroupNode : Type 0 where
  pub name : String
  pub rules : List Rule
  pub default : Option Defaults

pub data Node : Type 0 where
  host_node : (id host : String) → Node
  switch_node : SwitchNode → Node
  router_node : RouterNode → Node
  port_node : PortNode → Node
  route_node : RouteNode → Node
  group_node : GroupNode → Node
  other_node : (kind : String) → Node
