-- ===== src/Tests/Fabric.antt =====
-- Witnesses for the theorems on the cluster's declaration (deployer/ir_common.py): a switch, a
-- router with one port that is pinned to a host, and routes.
use ovn_fabric.Prelude.{
  ℕ, String, ◌≡◌, refl, none, some, List, [], ◌∷◌, All, sort_names, place_name, lookup, insert, map,
  contains, ◌++◌, sym, ap, ◌∙◌,
}
use ovn_fabric.Value.{text}
use ovn_fabric.Lifecycle.{validate}
use ovn_fabric.Plan.Calls.{
  done, failed, Call, opens, ◌then_emit◌, for_each, opening, nothing, given, capturing, refuses,
}
use ovn_fabric.Sysdeps.Names.{dedupe, dedupe_from}
use ovn_fabric.Cluster.Sorting.{sort_by, place_by, group_by, push, or_nil}
use ovn_fabric.Cluster.Groups.{
  switches_of, is_bindable, ports_of, need, host_names, domain_names, routes_of, routers_of,
}
use ovn_fabric.Cluster.Routers.{
  emit_router, emit_port, port_unit, emit_nat, nat_unit, secured, groups_of, snats, chassis_of,
}
use ovn_fabric.Sysdeps.Counts.{one_if, count}
use ovn_fabric.Cluster.Routes.{
  first_of, route_le, agree, best_of, emit_routes, best_routes, routes_emission, domain_routes,
  sort_table,
}
use ovn_fabric.Cluster.Prefixes.{best_routes-prefixes}
use ovn_fabric.Plan.Discipline.{IsPlanned}
use ovn_fabric.Cluster.Nodes.{
  Node, host_node, switch_node, port_node, route_node, RouteNode, GroupNode, deny,
}
use ovn_fabric.Cluster.Acls.{emit_acls, has_acls}
use ovn_fabric.Cluster.Body.{
  emit_cluster, cluster_plan, gateway_ids, emit_captures, emit_capture, chassis_table, emit_switch,
  localnet, emit_one,
}
use ovn_fabric.Cluster.Orderly.{cluster_plan-IsPlanned}
use ovn_fabric.Cluster.Valid.{reflected, empty_graph, emit_cluster-valid}
use ovn_fabric.Cluster.Choices.{IsBetter, best_of-IsBetter, emit_acls-nothing}

abbrev route_to : String → ℕ → RouteNode
route_to nexthop metric = record {
  router = "edge";
  prefix = "0.0.0.0/0";
  nexthop = nexthop;
  metric = metric;
  domain = "home";
}

abbrev sample : List Node
sample =
    host_node "host:hv1" "hv1"
    ∷ switch_node (record {
      id = "ls:lan";
      name = "lan";
      interfaces = record { host = "hv1"; kind = "vlan" } ∷ [];
    })
    ∷ port_node (record {
      router = "edge";
      name = "lrp-lan";
      mac = "02:00:00:00:00:01";
      addresses = "10.0.0.1/24" ∷ [];
      segment = "ls:lan";
      gateway_chassis = some "host:hv1";
      ra_configs = none;
    })
    ∷ route_node (route_to "10.0.0.254" 10)
    ∷ []

abbrev calls : List Call
calls = elim (emit_cluster sample 0) [ done cs ↦ cs | failed e ↦ [] ]

sample-done : emit_cluster sample 0 ≡ done calls
unfolding emit_cluster ◌then_emit◌ for_each sort_by place_by switches_of opening is_bindable nothing
    sort_names dedupe dedupe_from ports_of place_name given need lookup host_names insert
    domain_names routes_of routers_of gateway_ids emit_captures emit_capture capturing opens
    emit_switch localnet emit_one group_by push or_nil sort_table emit_router emit_port port_unit
    emit_nat nat_unit secured groups_of emit_acls has_acls emit_routes best_routes best_of first_of
    route_le agree routes_emission domain_routes chassis_table snats refuses chassis_of
sample-done = refl

cluster_plan-IsPlanned_example : IsPlanned (opens calls) (cluster_plan sample)
cluster_plan-IsPlanned_example = cluster_plan-IsPlanned sample calls sample-done

abbrev first_two : List Call → List Call
first_two (c ∷ d ∷ cs) = c ∷ d ∷ []
first_two cs = cs

abbrev after_two : List Call → List Call
after_two (c ∷ d ∷ cs) = cs
after_two cs = []

two_first : (cs : List Call) → first_two cs ++ after_two cs ≡ cs
two_first [] = refl
two_first (c ∷ []) = refl
two_first (c ∷ d ∷ cs) = refl

emit_cluster-valid_example :
    validate (reflected (λ var. text "chassis-1") (first_two calls) (empty_graph "hv1")) ≡ none
emit_cluster-valid_example =
    emit_cluster-valid (λ var. text "chassis-1") "hv1" sample (first_two calls) (after_two calls)
      (sample-done ∙ ap done (sym (two_first calls)))

abbrev two_routes : List RouteNode
two_routes = route_to "10.0.0.253" 20 ∷ route_to "10.0.0.254" 10 ∷ []

best_of-IsBetter_example :
    All (IsBetter (route_to "10.0.0.254" 10)) two_routes
    × (All (λ n. n.prefix ≡ "0.0.0.0/0") two_routes
        → (route_to "10.0.0.254" 10).prefix ≡ "0.0.0.0/0")
unfolding best_of sort_by place_by
best_of-IsBetter_example =
    best_of-IsBetter two_routes (route_to "10.0.0.254" 10) (λ n. n.prefix ≡ "0.0.0.0/0") refl

abbrev closed : GroupNode
closed = record {
  name = "sg-edge";
  rules = [];
  default = some (record { input = some deny; output = none; forward = none });
}

emit_acls-nothing_example : emit_acls "edge" [] [] (closed ∷ []) 3 ≡ done []
emit_acls-nothing_example = emit_acls-nothing "edge" [] [] (closed ∷ []) 3 (refl, tt)

best_routes-prefixes_example :
    count "0.0.0.0/0" (map (λ r. r.prefix) (route_to "10.0.0.254" 10 ∷ []))
    ≡ one_if (contains (map (λ r. r.prefix) two_routes) "0.0.0.0/0")
unfolding best_routes best_of first_of sort_by place_by route_le agree group_by push or_nil lookup
    insert
best_routes-prefixes_example =
    best_routes-prefixes two_routes (route_to "10.0.0.254" 10 ∷ []) refl "0.0.0.0/0"
