-- ===== src/Primitives/Netns.antt =====
-- deployer/primitives_host.py: a host, its network namespaces, and the links that are made inside one
-- (`HostPrimitive`, `NetnsPrimitive`, `LinkPrimitive`, `VlanPrimitive`).
use ovn_fabric.Prelude.{
  ℕ, String, ◌<>◌, Bool, true, false, Option, none, some, List, [], ◌∷◌, ◌++◌, str, str_eq,
  if◌then◌else◌, ◌>>=◌,
}
use ovn_fabric.Value.{text, num, bool, arr, nil, cons, Fields, end, field}
use ovn_fabric.Lifecycle.{Command, Primitive, RawNodeTemplate}
use ovn_fabric.Ladops.Net.{netns_exec_argv}
use ovn_fabric.Primitives.Build.{cmd}
use ovn_fabric.Primitives.Net.{ns_arg}

-- `NetnsPrimitive`: the root namespace has no name; one that a container has is not owned.
pub record Namespace : Type 0 where
  pub host : String
  pub name : Option String
  pub owned : Bool

-- `LinkPrimitive`
pub record Link : Type 0 where
  pub host : String
  pub netns : Option String
  pub name : String
  pub kind : String
  pub peer : Option String
  pub mac : Option String
  pub up : Bool

-- `VlanPrimitive`
pub record Vlan : Type 0 where
  pub host : String
  pub netns : Option String
  pub parent : String
  pub name : String
  pub vlan_id : ℕ

unfoldable pub host_primitive : String → Primitive
host_primitive name = record {
  key = "host:" <> name;
  nodes =
      record { id = "host:" <> name; kind = "host"; fields = field "hostname" (text name) end }
      ∷ [];
  create_cmds = [];
  delete_cmds = [];
}

-- `ref` of a namespace, and of a link in one
unfoldable pub netns_ref : Option String → String
netns_ref name = "netns:" <> ns_arg name

unfoldable pub link_ref : Option String → String → String
link_ref netns name = "link:" <> ns_arg netns <> "|" <> name

made_by : String → Option String → Bool → List Command
made_by host (some name) true =
    cmd (host <> ":netns " <> name <> " (create)") ("ip" ∷ "netns" ∷ "add" ∷ name ∷ [])
    ∷ cmd (host <> ":netns " <> name <> " (lo up)")
        ("ip" ∷ "netns" ∷ "exec" ∷ name ∷ "ip" ∷ "link" ∷ "set" ∷ "lo" ∷ "up" ∷ [])
    ∷ cmd (host <> ":netns " <> name <> " (ipv4 forwarding)")
        ("ip" ∷ "netns" ∷ "exec" ∷ name ∷ "sysctl" ∷ "-w" ∷ "net.ipv4.ip_forward=1" ∷ [])
    ∷ cmd (host <> ":netns " <> name <> " (ipv6 forwarding)")
        ("ip" ∷ "netns" ∷ "exec" ∷ name ∷ "sysctl" ∷ "-w" ∷ "net.ipv6.conf.all.forwarding=1" ∷ [])
    ∷ []
made_by host _ _ = []

removed_by : String → Option String → Bool → List Command
removed_by host (some name) true =
    cmd (host <> ":netns " <> name <> " (delete)") ("ip" ∷ "netns" ∷ "delete" ∷ name ∷ []) ∷ []
removed_by host _ _ = []

scope : Option String → Bool → String
scope none owned = "global"
scope (some name) false = "container"
scope (some name) true = "isolated"

unfoldable pub namespace_primitive : Namespace → Primitive
unfolding made_by removed_by scope
namespace_primitive n = record {
  key = netns_ref n.name;
  nodes =
      record {
        id = netns_ref n.name;
        kind = "netns";
        fields = field "scope" (text (scope n.name n.owned)) (
            field "name" (text (ns_arg n.name)) (
              field "linkRefs" (arr nil)
                (field "routeRefs" (arr nil) (field "ruleRefs" (arr nil) end))));
      }
      ∷ [];
  create_cmds = made_by n.host n.name n.owned;
  delete_cmds = removed_by n.host n.name n.owned;
}

-- The argument is given and no empty text.
given_text : Option String → Option String
given_text none = none
given_text (some s) = if str_eq s "" then none else some s

mac_field : Option String → Fields
mac_field none = end
mac_field (some mac) = field "mac" (text mac) end

veth_node : Link → (id name peer : String) → RawNodeTemplate
veth_node l id name peer = record {
  id = id;
  kind = "link";
  fields = field "netnsRef" (text (netns_ref l.netns)) (
      field "ifname" (text name) (
        field "ifindex" (num 0) (
          field "linkKind" (text "veth")
            (field "peerRefs" (arr (cons (text peer) nil)) (field "adminUp" (bool l.up) end)))));
}

plain_node : Link → RawNodeTemplate
unfolding mac_field given_text
plain_node l = record {
  id = link_ref l.netns l.name;
  kind = "link";
  fields = field "netnsRef" (text (netns_ref l.netns)) (
      field "ifname" (text l.name) (
        field "ifindex" (num 0) (
          field "linkKind" (text (if str_eq l.kind "dummy" then "dummy" else "other"))
            (field "adminUp" (bool l.up) (mac_field (given_text l.mac))))));
}

added_veth : Link → String → List String × List RawNodeTemplate
unfolding veth_node
added_veth l peer = (
  "ip" ∷ "link" ∷ "add" ∷ l.name ∷ "type" ∷ "veth" ∷ "peer" ∷ "name" ∷ peer ∷ [],
  veth_node l (link_ref l.netns l.name) l.name (link_ref l.netns peer)
      ∷ veth_node l (link_ref l.netns peer) peer (link_ref l.netns l.name)
      ∷ [],
)

added_plain : Link → List String × List RawNodeTemplate
unfolding plain_node
added_plain l = ("ip" ∷ "link" ∷ "add" ∷ l.name ∷ "type" ∷ l.kind ∷ [], plain_node l ∷ [])

-- How the link is added, with its nodes; none for a veth without a peer (its `ValueError`).
unfoldable pub added : Link → Option (List String × List RawNodeTemplate)
unfolding added_veth added_plain
added l =
    if str_eq l.kind "veth"
    then (l.peer >>= λ peer. some (added_veth l peer))
    else some (added_plain l)

mac_cmds : Link → Option String → List Command
mac_cmds l none = []
mac_cmds l (some mac) =
    cmd (l.host <> ":if " <> l.name <> " (mac)")
      (netns_exec_argv ("ip" ∷ "link" ∷ "set" ∷ l.name ∷ "address" ∷ mac ∷ []) l.netns)
    ∷ []

up_cmd : Link → String → Command
up_cmd l name =
    cmd (l.host <> ":if " <> name <> " (up)")
      (netns_exec_argv ("ip" ∷ "link" ∷ "set" ∷ name ∷ "up" ∷ []) l.netns)

peer_up : Link → Option String → List Command
unfolding up_cmd
peer_up l none = []
peer_up l (some peer) = if str_eq l.kind "veth" then up_cmd l peer ∷ [] else []

up_cmds : Link → List Command
unfolding up_cmd peer_up
up_cmds l = if l.up then up_cmd l l.name ∷ peer_up l l.peer else []

unfoldable pub link_primitive : Link → Option Primitive
unfolding mac_cmds given_text up_cmds
link_primitive l = added l >>= λ (argv, nodes). some (record {
  key = link_ref l.netns l.name;
  nodes = nodes;
  create_cmds =
      (cmd (l.host <> ":if " <> l.name <> " (create)") (netns_exec_argv argv l.netns) ∷ [])
      ++ (mac_cmds l (given_text l.mac) ++ up_cmds l);
  delete_cmds =
      cmd (l.host <> ":if " <> l.name <> " (delete)")
        (netns_exec_argv ("ip" ∷ "link" ∷ "delete" ∷ l.name ∷ []) l.netns)
      ∷ [];
})

unfoldable pub vlan_primitive : Vlan → Primitive
unfolding str
vlan_primitive l = record {
  key = link_ref l.netns l.name;
  nodes =
      record {
        id = link_ref l.netns l.name;
        kind = "link";
        fields = field "netnsRef" (text (netns_ref l.netns)) (
            field "ifname" (text l.name) (
              field "ifindex" (num 0)
                (field "linkKind" (text "vlan") (field "adminUp" (bool true) end))));
      }
      ∷ [];
  create_cmds =
      cmd (l.host <> ":vlan " <> l.name <> " (create)") (
        netns_exec_argv
          ("ip"
            ∷ "link"
            ∷ "add"
            ∷ "link"
            ∷ l.parent
            ∷ "name"
            ∷ l.name
            ∷ "type"
            ∷ "vlan"
            ∷ "id"
            ∷ str l.vlan_id
            ∷ [])
          l.netns)
      ∷ cmd (l.host <> ":vlan " <> l.name <> " (up)")
          (netns_exec_argv ("ip" ∷ "link" ∷ "set" ∷ l.name ∷ "up" ∷ []) l.netns)
      ∷ [];
  delete_cmds =
      cmd (l.host <> ":vlan " <> l.name <> " (delete)")
        (netns_exec_argv ("ip" ∷ "link" ∷ "delete" ∷ l.name ∷ []) l.netns)
      ∷ [];
}
