-- ===== src/Tests/KernelRouters.antt =====
-- A kernel router (deployer/ir_common.py) that is declared and planned.
use ovn_fabric.Prelude.{
  String, ◌<>◌, ◌≡◌, refl, false, none, some, List, [], ◌∷◌, str, All, ◌≢◌, lookup, arith, str_eq,
  Bool-cases, inl, inr, ◌||◌,
}
use mathlib.Core.Path.{subst}
use ovn_fabric.Primitives.Routing.{Library, addr_primitive}
use ovn_fabric.Plan.Calls.{
  PlanFault, done, failed, ◌>>=◌, opens, Call, Outcome, ◌then_emit◌, for_each, nothing, given,
  refuses,
}
use ovn_fabric.Plan.Units.{new_plan, run_calls}
use ovn_fabric.Plan.Discipline.{IsPlanned}
use ovn_fabric.Cluster.Nodes.{GroupNode, for_kernel, masq, ipv4}
use ovn_fabric.Kernel.Nodes.{
  left, right, vlan, veth, SideNode, Owner, OwningApp, KernelNode, owner_node, side_node,
  group_node, veth_entries, dhclient,
}
use ovn_fabric.Kernel.Container.{SideContext, emit_owning, opens_unit, doing}
use ovn_fabric.Kernel.Router.{
  emit_router, router_plan, emit_namespaces, opens_keyed, sides_of, emit_side, emit_on, device,
  emit_known, emit_device, root_bridge, side_link, plain_link, emit_accept,
}
use ovn_fabric.Kernel.Network.{
  declaring, groups_from, group_named, raised_by, side_network, emit_group,
}
use ovn_fabric.Kernel.Filters.{group_rows, rules_rows, kernel_rows}
use ovn_fabric.Kernel.Apps.{emit_app, own_unit, emit_dhclient}
use ovn_fabric.Primitives.NetnsLink.{netns_link_primitive, made}
use ovn_fabric.Lifecycle.{Graph, upsert, validate}
use ovn_fabric.Value.{text, field, end}
use ovn_fabric.Kernel.Closed.{nodes_of}
use ovn_fabric.Kernel.Valid.{emit_router-valid}
use ovn_fabric.Kernel.Misplaced.{emit_owning-fails}
use ovn_fabric.Kernel.Orderly.{router_plan-IsPlanned, CanPlan}

abbrev library : Library
library = record {
  ip_interface = λ addr. some (record { is_v6 = false; ip = addr; prefixlen = 24 });
  general = str;
  quote = λ s. "'" <> s <> "'";
  dirname = λ path. "/var/lib/dhcp";
}

abbrev nat : GroupNode
nat = record { name = "nat"; rules = masq ipv4 ∷ []; default = none }

abbrev owner : Owner
owner = record { id = "kernel.router:r"; name = "r"; host = "host:h1" }

abbrev inner : SideNode
inner = record {
  router = "r";
  side = left;
  ifaces = veth "r" none ∷ [];
  ipaddrs = "10.0.0.1/24" ∷ [];
  routes = record { dst = "10.1.0.0/16"; via = some "10.0.0.2"; metric = none } ∷ [];
  security_groups = [];
  apps = [];
}

abbrev outer : SideNode
outer = record {
  router = "r";
  side = right;
  ifaces = vlan none "eth0" 7 ∷ [];
  ipaddrs = [];
  routes = [];
  security_groups = record { name = "nat"; render = for_kernel } ∷ [];
  apps = dhclient ∷ [];
}

abbrev nodes : List KernelNode
nodes =
    owner_node owner
    ∷ side_node inner
    ∷ side_node outer
    ∷ group_node nat
    ∷ veth_entries (record { iface_name = "x"; peer_name = "veth-ovn-r"; bridge = "br-int" } ∷ [])
    ∷ []

abbrev zerotier_app : OwningApp
zerotier_app = record {
  name = some "zt";
  image = some "zerotier";
  build = none;
  volumes = ("/srv/zt", "/var/lib/zerotier-one") ∷ [];
  identity = some ("public", "secret");
  run = [];
  command = [];
}

abbrev side : SideContext
side = record {
  router = "r";
  host = "h1";
  netns = "ns-r";
  dev = "eth0.7";
  transit_leg = some "veth-krn-r";
  groups = nat ∷ [];
  ipaddrs = "192.0.2.7/24" ∷ [];
  routes = [];
  transit_ipaddrs = [];
  transit_routes = [];
}

emit_owning-fails_example :
    (e : PlanFault) × ((emit_owning library side zerotier_app "zt_pid" 0 >>= λ calls.
    run_calls calls (new_plan "r"))
      ≡ failed e)
unfolding new_plan
emit_owning-fails_example =
    emit_owning-fails library side zerotier_app "zt_pid" (new_plan "r") nat [] refl

abbrev calls_of : Outcome (List Call) → List Call
calls_of (done calls) = calls
calls_of (failed e) = []

abbrev calls : List Call
calls = calls_of (emit_router library nodes owner "ns-r" 0)

calls-done : emit_router library nodes owner "ns-r" 0 ≡ done calls
unfolding emit_router emit_namespaces opens_keyed ◌then_emit◌ declaring for_each nothing given
    refuses sides_of emit_side emit_on device groups_from emit_known emit_device opens_unit
    raised_by netns_link_primitive made side_link emit_accept side_network addr_primitive emit_group
    group_rows rules_rows kernel_rows emit_app own_unit doing emit_dhclient opens plain_link
    group_named
calls-done = refl

ungrouped : All CanPlan (sides_of "r" nodes)
unfolding sides_of
ungrouped = (tt, ((tt, tt), tt))

router_plan-IsPlanned_example : IsPlanned (opens calls) (router_plan library nodes owner)
router_plan-IsPlanned_example = router_plan-IsPlanned library nodes owner calls ungrouped calls-done

abbrev bridged : Graph
bridged = record {
  host = "h1";
  nodes = ("ovs.bridge:br-int", field "name" (text "br-int") end) ∷ [];
}

only_bridge :
    (leg bridge : String)
    → root_bridge leg nodes ≡ some bridge
    → lookup ("ovs.bridge:" <> bridge) bridged.nodes ≢ none
unfolding root_bridge lookup
only_bridge leg bridge e = elim (Bool-cases (str_eq leg "x" || str_eq leg "veth-ovn-r")) [
  | inl f ↦
      let same : "br-int" ≡ bridge = ground (arith, e, f) in
      subst (λ b. lookup ("ovs.bridge:" <> b) bridged.nodes ≢ none) same (λ absent. ground arith)
  | inr f ↦ ground (arith, e, f)
]

emit_router-valid_example : validate (upsert (nodes_of calls) bridged) ≡ none
unfolding validate sides_of
emit_router-valid_example =
    emit_router-valid library nodes owner "ns-r" calls bridged ((tt, ((tt, tt), tt))) calls-done
      only_bridge refl
