-- ===== src/Cluster/Orderly.antt =====
-- The cluster's declaration (deployer/ir_common.py) keeps to the discipline of fabric/plan.py.
use ovn_fabric.Prelude.{
  String, ◌≡◌, refl, Bool, true, false, Option, List, [], ◌∷◌, Dict, arith, Bool-cases, inl, inr,
}
use mathlib.Core.Path.{subst}
use ovn_fabric.Plan.Calls.{done, Call, opens}
use ovn_fabric.Plan.Units.{new_plan}
use ovn_fabric.Plan.Discipline.{
  IsOrderly, Holds, IsOrderlyEmission, IsPlanned, IsPlanned-eq, opening-IsOrderly,
  capturing-IsOrderly, nothing-IsOrderly, then_emit-IsOrderly, for_each-IsOrderly, given-IsOrderly,
  run_calls-IsPlanned,
}
use ovn_fabric.Cluster.Nodes.{SwitchNode, PortNode, RouteNode, RouterNode, GroupNode, Node}
use ovn_fabric.Cluster.Acls.{has_acls, port_switches, emit_acls, with_switches, acl_unit}
use ovn_fabric.Cluster.Routes.{emit_routes, routes_emission, domain_routes}
use ovn_fabric.Cluster.Routers.{emit_port, port_unit, emit_nat, nat_unit, secured, emit_router}
use ovn_fabric.Cluster.Body.{
  emit_switch, localnet, emit_captures, emit_capture, emit_one, emit_cluster, cluster_plan,
}

localnet-IsOrderly : (name : String) (b : Bool) → IsOrderlyEmission (localnet name b)
unfolding localnet
localnet-IsOrderly name true = opening-IsOrderly _ _ _
localnet-IsOrderly name false = nothing-IsOrderly

emit_switch-IsOrderly : (ns : List Node) (s : SwitchNode) → IsOrderlyEmission (emit_switch ns s)
unfolding emit_switch
emit_switch-IsOrderly ns s =
    then_emit-IsOrderly _ _ (opening-IsOrderly _ _ _) (localnet-IsOrderly s.name _)

emit_captures-IsOrderly :
    (hosts : Dict String) (ids : List String) → IsOrderlyEmission (emit_captures hosts ids)
unfolding emit_captures emit_capture
emit_captures-IsOrderly hosts ids =
    for_each-IsOrderly ids (emit_capture hosts)
      (λ id. given-IsOrderly _ _ (λ host. capturing-IsOrderly _ _ _ _))

emit_port-IsOrderly :
    (router : String) (domains chassis : Dict String) (p : PortNode)
    → IsOrderlyEmission (emit_port router domains chassis p)
unfolding emit_port port_unit
emit_port-IsOrderly router domains chassis p =
    given-IsOrderly _ _ (λ domain. given-IsOrderly _ _ (λ var. opening-IsOrderly _ _ _))

nat_unit-IsOrderly :
    (router : String) (d : Dict (List (List String))) → IsOrderlyEmission (nat_unit router d)
unfolding nat_unit
nat_unit-IsOrderly router [] = nothing-IsOrderly
nat_unit-IsOrderly router (e ∷ d) = opening-IsOrderly _ _ _

with_switches-IsOrderly :
    (router : String) (groups : List GroupNode) (switches : List String)
    → IsOrderlyEmission (with_switches router groups switches)
unfolding with_switches acl_unit
with_switches-IsOrderly router groups [] = nothing-IsOrderly
with_switches-IsOrderly router groups (s ∷ ss) = given-IsOrderly _ _ (λ es. opening-IsOrderly _ _ _)

emit_acls-IsOrderly :
    (router : String) (domains : Dict String) (ports : List PortNode) (groups : List GroupNode)
    → IsOrderlyEmission (emit_acls router domains ports groups)
unfolding emit_acls
emit_acls-IsOrderly router domains ports groups = elim (Bool-cases (has_acls groups)) [
  | inl e ↦ rw e (
      given-IsOrderly (port_switches domains ports) _
        (λ found. with_switches-IsOrderly router groups _))
  | inr e ↦ rw e nothing-IsOrderly
]

emit_routes-IsOrderly :
    (router : String) (rs : List RouteNode) → IsOrderlyEmission (emit_routes router rs)
unfolding emit_routes routes_emission domain_routes
emit_routes-IsOrderly router rs =
    given-IsOrderly _ _ (λ best. for_each-IsOrderly _ _ (λ e. by_domain e))
  where
    by_domain : (e : String × List RouteNode) → IsOrderlyEmission (domain_routes router e)
    by_domain (domain, ns) = opening-IsOrderly _ _ _

emit_router-IsOrderly :
    (router : String) (ports : List PortNode) (routes : List RouteNode)
    (chassis domains : Dict String) (known : Option RouterNode) (ns : List Node)
    → IsOrderlyEmission (emit_router router ports routes chassis domains known ns)
unfolding emit_router secured emit_nat
emit_router-IsOrderly router ports routes chassis domains known ns =
    then_emit-IsOrderly _ _
      (then_emit-IsOrderly _ _
        (then_emit-IsOrderly _ _ (opening-IsOrderly _ _ _)
          (for_each-IsOrderly _ _ (emit_port-IsOrderly router domains chassis)))
        (given-IsOrderly _ _ (λ groups.
          then_emit-IsOrderly _ _ (nat_unit-IsOrderly router _)
            (emit_acls-IsOrderly router domains ports groups))))
      (emit_routes-IsOrderly router routes)

emit_cluster-IsOrderly : (ns : List Node) → IsOrderlyEmission (emit_cluster ns)
unfolding emit_cluster emit_one
emit_cluster-IsOrderly ns =
    then_emit-IsOrderly _ _
      (then_emit-IsOrderly _ _ (for_each-IsOrderly _ _ (emit_switch-IsOrderly ns))
        (emit_captures-IsOrderly _ _))
      (for_each-IsOrderly _ _ (one _))
  where
    one :
        (chassis : Dict String) (e : String × List PortNode)
        → IsOrderlyEmission (emit_one ns chassis e)
    one chassis (router, ports) = emit_router-IsOrderly router ports _ _ _ _ ns

-- When the cluster of an IR can be declared, its plan has one unit for each that was opened, or the
-- refusal has another reason than an operation outside any unit or on a unit that is not the newest.
pub cluster_plan-IsPlanned :
    (ns : List Node) (calls : List Call)
    → emit_cluster ns 0 ≡ done calls
    → IsPlanned (opens calls) (cluster_plan ns)
unfolding cluster_plan new_plan
cluster_plan-IsPlanned ns calls e =
    let orderly : Holds (IsOrderly 0) (done calls) =
      subst (Holds (IsOrderly 0)) e (emit_cluster-IsOrderly ns 0) in
    rw e
      (IsPlanned-eq _ (omega arith) (run_calls-IsPlanned calls 0 (new_plan "cluster") orderly refl))
