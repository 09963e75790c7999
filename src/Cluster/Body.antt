-- ===== src/Cluster/Body.antt =====
-- The whole cluster (deployer/ir_common.py, `_emit_cluster_body` with `_emit_logical_switch`,
-- `_emit_localnet_lsp_create` and `_emit_gateway_chassis_refs`).
use Prim.Native.Char.{code}
use ovn_fabric.Prelude.{
  String, ◌<>◌, Bool, true, false, none, some, List, [], ◌∷◌, lookup, Dict, sort_names,
  if◌then◌else◌,
}
use ovn_fabric.Sysdeps.Names.{is_alnum, dedupe}
use ovn_fabric.Ladops.Ovn.{sb_chassis_id_by_hostname_argv}
use ovn_fabric.Primitives.Ovn.Kinds.{ls, lsp}
use ovn_fabric.Plan.Calls.{
  Outcome, ◌>>=◌, Emission, nothing, opening, capturing, for_each, given, ◌then_emit◌, object,
}
use ovn_fabric.Plan.Units.{Plan, new_plan, run_calls}
use ovn_fabric.Cluster.Nodes.{SwitchNode, PortNode, Node}
use ovn_fabric.Cluster.Sorting.{sort_by, by_name, group_by, or_nil}
use ovn_fabric.Cluster.Groups.{
  host_names, domain_names, switches_of, ports_of, routes_of, routers_of, is_bindable, need,
}
use ovn_fabric.Cluster.Routes.{sort_table}
use ovn_fabric.Cluster.Routers.{emit_router}

unfoldable pub localnet : String → Bool → Emission
localnet name false = nothing
localnet name true = opening "localnet port" (some name) (
    object (
      lsp name ("lsp-" <> name <> "-localnet") (some "localnet") ("unknown" ∷ [])
        (("network_name", "net-" <> name) ∷ []))
    ∷ [])

unfoldable pub emit_switch : List Node → SwitchNode → Emission
unfolding localnet
emit_switch ns s =
    opening "logical switch" (some s.name) (object (ls s.name) ∷ [])
    then_emit localnet s.name (is_bindable ns s.name)

-- `_chassis_var`, of a host name in ASCII
safe : String → String
safe String.[] = ""
safe (String.◌∷◌ c s) =
    let rest = safe s in if is_alnum (code c) then String.◌∷◌ c rest else "_" <> rest

unfoldable pub chassis_var : String → String
unfolding safe
chassis_var host = "OVN_CHASSIS_" <> safe host

unfoldable pub gateway_ids : List PortNode → List String
gateway_ids [] = []
gateway_ids (p ∷ ps) = elim p.gateway_chassis [
  | none ↦ gateway_ids ps
  | some id ↦ id ∷ gateway_ids ps
]

unfoldable pub emit_capture : Dict String → String → Emission
unfolding chassis_var
emit_capture hosts id = given (need id hosts) (λ host.
    capturing "chassis id" (some (host <> " (resolved on this host)")) (chassis_var host)
      (sb_chassis_id_by_hostname_argv host))

-- `_emit_gateway_chassis_refs`: the captures, and the variable of each host's id.
unfoldable pub emit_captures : Dict String → List String → Emission
unfolding emit_capture
emit_captures hosts ids = for_each ids (emit_capture hosts)

unfoldable pub chassis_table : Dict String → List String → Dict String
unfolding chassis_var
chassis_table hosts [] = []
chassis_table hosts (id ∷ ids) = elim (lookup id hosts) [
  | none ↦ chassis_table hosts ids
  | some host ↦ (id, chassis_var host) ∷ chassis_table hosts ids
]

unfoldable pub emit_one : List Node → Dict String → String × List PortNode → Emission
emit_one ns chassis (router, ports) =
    emit_router router ports (or_nil (lookup router (group_by (λ r. r.router) (routes_of ns) [])))
      chassis (domain_names ns []) (lookup router (routers_of ns [])) ns

-- `_emit_cluster_body`
unfoldable pub emit_cluster : List Node → Emission
unfolding emit_switch emit_captures chassis_table emit_one sort_table gateway_ids
emit_cluster ns =
    let hosts = host_names ns [] in
    let ids = sort_names (dedupe (gateway_ids (ports_of ns))) in
    for_each (sort_by (by_name (λ s. s.name)) (switches_of ns)) (emit_switch ns)
    then_emit emit_captures hosts ids
    then_emit for_each (sort_table (group_by (λ p. p.router) (ports_of ns) []))
        (emit_one ns (chassis_table hosts ids))

-- The units of the scope `cluster` (`_scope` of fabric/plan.py).
unfoldable pub cluster_plan : List Node → Outcome Plan
cluster_plan ns = emit_cluster ns 0 >>= λ calls. run_calls calls (new_plan "cluster")
