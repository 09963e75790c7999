-- ===== src/Cluster/Groups.antt =====
-- The tables of an IR's nodes, and the security groups of a router (deployer/ir_common.py,
-- `_host_name_by_id` to `_group_routes_by_router`, `_router_nodes` and `_security_groups_from_refs`).
use ovn_fabric.Prelude.{
  String, Bool, true, false, Option, none, some, List, [], ◌∷◌, any, str_eq, str, Dict, lookup,
  insert, contains, if◌then◌else◌,
}
use ovn_fabric.Cluster.Nodes.{
  Setting, flag, number, word, Settings, Render, for_kernel, for_ovn, GroupRef, SwitchNode,
  RouterNode, PortNode, RouteNode, GroupNode, Node, host_node, switch_node, router_node, port_node,
  route_node, group_node,
}
use ovn_fabric.Cluster.Sorting.{sort_by, by_name}
use ovn_fabric.Plan.Calls.{Outcome, done, failed, ◌>>=◌, bad_value, missing_key}

unfoldable pub host_names : List Node → Dict String → Dict String
host_names [] d = d
host_names (host_node id host ∷ ns) d = host_names ns (insert id host d)
host_names (n ∷ ns) d = host_names ns d

unfoldable pub domain_names : List Node → Dict String → Dict String
domain_names [] d = d
domain_names (switch_node s ∷ ns) d = domain_names ns (insert s.id s.name d)
domain_names (n ∷ ns) d = domain_names ns d

unfoldable pub switches_of : List Node → List SwitchNode
switches_of [] = []
switches_of (switch_node s ∷ ns) = s ∷ switches_of ns
switches_of (n ∷ ns) = switches_of ns

unfoldable pub ports_of : List Node → List PortNode
ports_of [] = []
ports_of (port_node p ∷ ns) = p ∷ ports_of ns
ports_of (n ∷ ns) = ports_of ns

unfoldable pub routes_of : List Node → List RouteNode
routes_of [] = []
routes_of (route_node r ∷ ns) = r ∷ routes_of ns
routes_of (n ∷ ns) = routes_of ns

unfoldable pub routers_of : List Node → Dict RouterNode → Dict RouterNode
routers_of [] d = d
routers_of (router_node r ∷ ns) d = routers_of ns (insert r.name r d)
routers_of (n ∷ ns) d = routers_of ns d

-- `_BINDABLE_IFACE_KINDS`
abbrev bindable_kinds : List String
bindable_kinds = "vlan" ∷ "physical" ∷ "veth" ∷ "xdp" ∷ []

-- The name is among `_domains_with_bindable_interfaces`.
unfoldable pub is_bindable : List Node → String → Bool
is_bindable ns name =
    any
      (λ s.
        if str_eq s.name name
        then any (λ b. contains bindable_kinds b.kind) s.interfaces
        else false)
      (switches_of ns)

-- `table[key]`
unfoldable pub need : {A : Type 0} → String → Dict A → Outcome A
need k d = elim (lookup k d) [ some x ↦ done x | none ↦ failed (missing_key k) ]

-- `_security_group_by_name`
unfoldable pub group_named : String → List Node → Option GroupNode
group_named name [] = none
group_named name (group_node g ∷ ns) =
    let rest = group_named name ns in if str_eq g.name name then some g else rest
group_named name (n ∷ ns) = group_named name ns

is_for_ovn : Render → Bool
is_for_ovn for_ovn = true
is_for_ovn for_kernel = false

-- `_security_groups_from_refs`, of a router
unfoldable pub groups_from : List GroupRef → List Node → Outcome (List GroupNode)
unfolding is_for_ovn
groups_from [] ns = done []
groups_from (r ∷ rs) ns =
    let rest = groups_from rs ns in
    if is_for_ovn r.render
    then elim (group_named r.name ns) [
      | none ↦ failed bad_value
      | some g ↦ rest >>= λ gs. done (g ∷ gs)
    ]
    else failed bad_value

-- `_ovn_value`
ovn_value : Setting → String
ovn_value (flag true) = "true"
ovn_value (flag false) = "false"
ovn_value (number n) = str n
ovn_value (word s) = s

set_fields : Settings → List (String × String)
unfolding ovn_value
set_fields [] = []
set_fields ((name, none) ∷ fs) = set_fields fs
set_fields ((name, some v) ∷ fs) = (name, ovn_value v) ∷ set_fields fs

-- `_ovn_settings`
unfoldable pub ovn_settings : Settings → List (String × String)
unfolding set_fields
ovn_settings fs = set_fields (sort_by (by_name (λ f. f.0)) fs)
