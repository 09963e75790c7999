-- ===== src/Cluster/Routes.antt =====
-- The static routes of a router (deployer/ir_common.py, `_emit_router_routes`).
use ovn_fabric.Prelude.{
  String, ◌<>◌, Bool, true, some, List, [], ◌∷◌, map, all, str_eq, str_le, ltb, ◌==◌, Dict,
  if◌then◌else◌,
}
use ovn_fabric.Primitives.Ovn.Kinds.{route}
use ovn_fabric.Plan.Calls.{
  bad_value, Outcome, done, failed, ◌>>=◌, Emission, opening, for_each, given, object,
}
use ovn_fabric.Cluster.Nodes.{RouteNode}
use ovn_fabric.Cluster.Sorting.{sort_by, by_name, group_by}

-- `key=lambda n: (n.data.metric, n.data.nexthop)`
unfoldable pub route_le : RouteNode → RouteNode → Bool
route_le a b = if a.metric == b.metric then str_le a.nexthop b.nexthop else ltb a.metric b.metric

-- Every route of the lowest metric has the first one's next hop.
unfoldable pub agree : RouteNode → List RouteNode → Bool
agree r rs = all (λ n. if n.metric == r.metric then str_eq n.nexthop r.nexthop else true) rs

-- The best of a prefix's routes, sorted.
unfoldable pub first_of : List RouteNode → Outcome RouteNode
unfolding agree
first_of [] = failed bad_value
first_of (r ∷ rs) = if agree r (r ∷ rs) then done r else failed bad_value

unfoldable pub best_of : List RouteNode → Outcome RouteNode
unfolding first_of route_le
best_of group = first_of (sort_by route_le group)

unfoldable pub best_routes : Dict (List RouteNode) → Outcome (List RouteNode)
best_routes [] = done []
best_routes ((prefix, group) ∷ rest) =
    best_of group >>= λ r. best_routes rest >>= λ rs. done (r ∷ rs)

unfoldable pub domain_routes : String → String × List RouteNode → Emission
domain_routes router (domain, rs) =
    opening "routes" (some (router <> " (" <> domain <> ")"))
      (map (λ n. object (route router n.prefix n.nexthop)) (sort_by (by_name (λ n. n.prefix)) rs))

-- `for domain in sorted(by_domain)`: the entries of the table by their keys.
unfoldable pub sort_table : {A : Type 0} → Dict A → Dict A
sort_table d = sort_by (by_name (λ e. e.0)) d

unfoldable pub routes_emission : String → List RouteNode → Emission
unfolding domain_routes sort_table
routes_emission router best =
    for_each (sort_table (group_by (λ n. n.domain) best [])) (domain_routes router)

-- `_emit_router_routes`. Without routes its tables are empty, and it emits nothing.
unfoldable pub emit_routes : String → List RouteNode → Emission
unfolding best_routes routes_emission
emit_routes router rs =
    given (best_routes (group_by (λ n. n.prefix) rs [])) (routes_emission router)
