-- ===== src/Kernel/Router.antt =====
-- The declaration of a kernel router (deployer/ir_common.py, `_emit_kernel_router_owner`).
use ovn_fabric.Prelude.{
  ℕ, String, ◌<>◌, true, ◌||◌, Option, none, some, List, [], ◌∷◌, str, str_eq, if◌then◌else◌,
}
use ovn_fabric.Primitives.Netns.{namespace_primitive}
use ovn_fabric.Primitives.NetnsLink.{NetnsLink, LinkKind, netns_link_primitive, or_else}
use ovn_fabric.Primitives.Routing.{Library, sysctl_file_primitive}
use ovn_fabric.Plan.Calls.{
  Outcome, done, ◌>>=◌, keyed_unit, Emission, nothing, for_each, given, ◌then_emit◌,
}
use ovn_fabric.Plan.Units.{Plan, new_plan, run_calls}
use ovn_fabric.Cluster.Nodes.{GroupNode}
use ovn_fabric.Cluster.Routers.{remove_prefix}
use ovn_fabric.Kernel.Nodes.{
  Side, left, right, KernelIface, vlan, physical, veth, other_iface, SideRoute, SideNode, Owner,
  VethEntry, KernelNode, side_node, veth_entries,
}
use ovn_fabric.Kernel.Network.{declaring, raised_by, side_network, groups_from}
use ovn_fabric.Kernel.Container.{SideContext, opens_unit}
use ovn_fabric.Kernel.Apps.{emit_app}

side_text : Side → String
side_text left = "left"
side_text right = "right"

-- `_kernel_router_sides`
unfoldable pub sides_of : String → List KernelNode → List SideNode
sides_of name [] = []
sides_of name (side_node s ∷ ns) =
    let rest = sides_of name ns in if str_eq s.router name then s ∷ rest else rest
sides_of name (n ∷ ns) = sides_of name ns

-- `_veth_root_bridge`
bridge_in : String → List VethEntry → Option String
bridge_in leg [] = none
bridge_in leg (e ∷ es) =
    let rest = bridge_in leg es in
    if str_eq leg e.iface_name || str_eq leg e.peer_name then some e.bridge else rest

first_of : Option String → Option String → Option String
first_of none o = o
first_of (some s) o = some s

unfoldable pub root_bridge : String → List KernelNode → Option String
unfolding bridge_in first_of
root_bridge leg [] = none
root_bridge leg (veth_entries es ∷ ns) = first_of (bridge_in leg es) (root_bridge leg ns)
root_bridge leg (n ∷ ns) = root_bridge leg ns

-- The device of a side; none for an interface that is skipped.
unfoldable pub device : Side → List KernelIface → Option String
unfolding side_text or_else str
device s [] = some ("dummy-" <> side_text s)
device s (vlan name parent vlan_id ∷ rest) = some (or_else name (parent <> "." <> str vlan_id))
device s (physical name ∷ rest) = some name
device s (veth short_name mac ∷ rest) = some ("veth-krn-" <> short_name)
device s (other_iface kind ∷ rest) = none

unfoldable pub plain_link : (host netns dev : String) → LinkKind → NetnsLink
plain_link host netns dev kind = record {
  host = host;
  netns = netns;
  name = dev;
  kind = kind;
  rename_to = none;
  parent = none;
  vlan_id = none;
  mac = none;
  root_leg = none;
  bridge = none;
}

-- `add_link` of a side's device
unfoldable pub side_link :
    List KernelNode → (host netns dev : String) → List KernelIface → NetnsLink
side_link ns host netns dev [] = plain_link host netns dev LinkKind.dummy
side_link ns host netns dev (vlan name parent vlan_id ∷ rest) =
    record (plain_link host netns dev LinkKind.vlan) {
      parent = some parent;
      vlan_id = some vlan_id;
    }
side_link ns host netns dev (veth short_name mac ∷ rest) =
    let leg = "veth-ovn-" <> short_name in
    record (plain_link host netns dev LinkKind.veth) {
      mac = mac;
      root_leg = some leg;
      bridge = root_bridge leg ns;
    }
side_link ns host netns dev (iface ∷ rest) = plain_link host netns dev LinkKind.physical

-- Router advertisements are accepted on the right side.
unfoldable pub emit_accept : Library → (host netns dev : String) → ℕ → Side → Emission
emit_accept lib host netns dev on left = nothing
emit_accept lib host netns dev on right = declaring on (
    sysctl_file_primitive lib (record {
      host = host;
      netns = netns;
      path = "/proc/sys/net/ipv6/conf/" <> dev <> "/accept_ra";
      value = "2";
    }))

-- What the left side has of the transit: the last one counts.
pub record Transit : Type 0 where
  pub leg : Option String
  pub ipaddrs : List String
  pub routes : List SideRoute

leg_of : Option String → List KernelIface → Option String
leg_of before (veth short_name mac ∷ rest) = some ("veth-krn-" <> short_name)
leg_of before _ = before

of_side : Transit → SideNode → Side → Transit
unfolding leg_of
of_side t s left = record { leg = leg_of t.leg s.ifaces; ipaddrs = s.ipaddrs; routes = s.routes }
of_side t s right = t

unfoldable pub transit_of : Transit → List SideNode → Transit
unfolding of_side
transit_of t [] = t
transit_of t (s ∷ ss) = transit_of (of_side t s s.side) ss

unfoldable pub no_transit : Transit
no_transit = record { leg = none; ipaddrs = []; routes = [] }

unfoldable pub context :
    (router host netns dev : String) → Transit → SideNode → List GroupNode → SideContext
context router host netns dev t s groups = record {
  router = router;
  host = host;
  netns = netns;
  dev = dev;
  transit_leg = t.leg;
  groups = groups;
  ipaddrs = s.ipaddrs;
  routes = s.routes;
  transit_ipaddrs = t.ipaddrs;
  transit_routes = t.routes;
}

-- The unit of a side with what is on it, and the units of its groups.
unfoldable pub emit_device :
    Library → List KernelNode → SideContext → SideNode → List GroupNode → Emission
unfolding side_text emit_accept
emit_device lib ns c s groups n =
    (opens_unit "kernel router side" (c.router <> " (" <> side_text s.side <> ")")
        then_emit given
            (raised_by (netns_link_primitive (side_link ns c.host c.netns c.dev s.ifaces)))
            (declaring n)
        then_emit emit_accept lib c.host c.netns c.dev n s.side
        then_emit side_network lib c.host c.netns c.dev n groups s.ipaddrs s.routes)
      n

-- One pass of the loop over the sides.
unfoldable pub emit_known :
    Library
    → List KernelNode
    → (router host netns dev : String) → Transit
    → SideNode
    → List GroupNode
    → Emission
unfolding emit_device context
emit_known lib ns router host netns dev t s groups =
    let c = context router host netns dev t s groups in
    emit_device lib ns c s groups then_emit for_each s.apps (emit_app lib c ns)

unfoldable pub emit_on :
    Library
    → List KernelNode
    → (router host netns : String) → Transit
    → SideNode
    → Option String
    → Emission
unfolding emit_known
emit_on lib ns router host netns t s none = nothing
emit_on lib ns router host netns t s (some dev) =
    given (groups_from s.security_groups ns) (emit_known lib ns router host netns dev t s)

unfoldable pub emit_side :
    Library → List KernelNode → (router host netns : String) → Transit → SideNode → Emission
unfolding emit_on
emit_side lib ns router host netns t s =
    emit_on lib ns router host netns t s (device s.side s.ifaces)

unfoldable pub opens_keyed : (kind subject key : String) → Emission
opens_keyed kind subject key n = done (keyed_unit kind subject key ∷ [])

unfoldable pub emit_namespaces : Owner → (host netns : String) → Emission
unfolding opens_keyed
emit_namespaces o host netns n =
    (opens_keyed "kernel router" o.name o.id
        then_emit declaring n
            (namespace_primitive (record { host = host; name = none; owned = true }))
        then_emit declaring n
            (namespace_primitive (record { host = host; name = some netns; owned = true })))
      n

-- `_emit_kernel_router_owner`
unfoldable pub emit_router : Library → List KernelNode → Owner → (netns : String) → Emission
unfolding emit_namespaces no_transit
emit_router lib ns o netns =
    let host = remove_prefix "host:" o.host in
    let sides = sides_of o.name ns in
    emit_namespaces o host netns
    then_emit for_each sides (emit_side lib ns o.name host netns (transit_of no_transit sides))

-- `_scope` of a kernel router
unfoldable pub router_plan : Library → List KernelNode → Owner → Outcome Plan
router_plan lib ns o =
    emit_router lib ns o ("ns-" <> o.name) 0 >>= λ calls. run_calls calls (new_plan o.name)
