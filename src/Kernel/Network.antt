-- ===== src/Kernel/Network.antt =====
-- The addresses, routes and rules of a kernel router's side (deployer/ir_common.py,
-- `_apply_side_network` and `_emit_security_group_rules`) as calls on an emitter.
use ovn_fabric.Prelude.{
  ℕ, String, ◌<>◌, Bool, true, false, Option, none, some, List, [], ◌∷◌, map, str_eq, if◌then◌else◌,
}
use ovn_fabric.Lifecycle.{primitive, Primitive}
use ovn_fabric.Primitives.Net.{net_primitive, iptables_rule}
use ovn_fabric.Primitives.Routing.{Library, addr_primitive, route_primitive}
use ovn_fabric.Plan.Calls.{
  bad_value, Outcome, done, failed, ◌>>=◌, Call, unit, does, Emission, for_each, given, ◌then_emit◌,
}
use ovn_fabric.Cluster.Nodes.{GroupRef, Render, for_kernel, for_ovn, GroupNode}
use ovn_fabric.Kernel.Nodes.{SideRoute, KernelNode, group_node}
use ovn_fabric.Kernel.Filters.{Row, group_rows}

-- `emit.ovn(...)` on the unit `on`
unfoldable pub declaring : ℕ → Primitive → Emission
declaring on p n = done (does (some on) (primitive p) ∷ [])

-- What `as_primitive` raises.
unfoldable pub raised_by : Option Primitive → Outcome Primitive
raised_by none = failed bad_value
raised_by (some p) = done p

unfoldable pub rule_call : (host netns : String) → ℕ → Row → Call
rule_call host netns on r =
    does (some on)
      (primitive (net_primitive (iptables_rule host netns r.binary r.table r.chain r.args)))

-- The unit of a group and the rules on it. A rule that is refused ends the declaration.
unfoldable pub emit_group : (host netns dev : String) → GroupNode → Emission
unfolding rule_call
emit_group host netns dev g n = group_rows dev g >>= λ rows. done (
    unit "security group" (some (g.name <> " in " <> netns <> " on " <> dev))
    ∷ map (rule_call host netns n) rows)

-- `_apply_side_network`, on the unit `on`
unfoldable pub side_network :
    Library
    → (host netns dev : String) → ℕ
    → List GroupNode
    → List String
    → List SideRoute
    → Emission
unfolding declaring raised_by emit_group
side_network lib host netns dev on groups ipaddrs routes =
    for_each ipaddrs (λ addr.
      given
        (raised_by (
          addr_primitive lib (record { host = host; netns = some netns; link = dev; addr = addr })))
        (declaring on))
    then_emit for_each routes (λ route. declaring on (
        route_primitive lib (record {
          host = host;
          netns = some netns;
          dst = route.dst;
          dev = dev;
          via = route.via;
          metric = route.metric;
          table = none;
          family = none;
        })))
    then_emit for_each groups (emit_group host netns dev)

-- `_security_group_by_name`
unfoldable pub group_named : String → List KernelNode → Option GroupNode
group_named name [] = none
group_named name (group_node g ∷ ns) =
    let rest = group_named name ns in if str_eq g.name name then some g else rest
group_named name (n ∷ ns) = group_named name ns

is_for_kernel : Render → Bool
is_for_kernel for_kernel = true
is_for_kernel for_ovn = false

-- `_security_groups_from_refs`, of a kernel router
unfoldable pub groups_from : List GroupRef → List KernelNode → Outcome (List GroupNode)
unfolding is_for_kernel
groups_from [] ns = done []
groups_from (r ∷ rs) ns =
    let rest = groups_from rs ns in
    if is_for_kernel r.render
    then elim (group_named r.name ns) [
      | none ↦ failed bad_value
      | some g ↦ rest >>= λ gs. done (g ∷ gs)
    ]
    else failed bad_value
