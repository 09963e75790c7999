-- ===== src/Cluster/Routers.antt =====
-- A router with its ports, NAT, ACLs and routes (deployer/ir_common.py, `_emit_router`).
use Prim.Native.Char.{code}
use ovn_fabric.Prelude.{
  String, ◌<>◌, false, Option, none, some, List, [], ◌∷◌, ◌++◌, map, ◌==◌, join, Dict,
  if◌then◌else◌,
}
use ovn_fabric.Primitives.Ovn.Kinds.{Pairs, lsp, lr, lrp, nat}
use ovn_fabric.Plan.Calls.{
  Outcome, done, ◌>>=◌, Emission, nothing, opening, for_each, given, ◌then_emit◌, Declared, object,
  pinned_lrp,
}
use ovn_fabric.Cluster.Nodes.{
  Settings, GroupRef, Rule, snat, GroupNode, PortNode, RouterNode, RouteNode, Node,
}
use ovn_fabric.Cluster.Sorting.{sort_by, by_name, texts_le, push}
use ovn_fabric.Cluster.Groups.{need, groups_from, ovn_settings}
use ovn_fabric.Cluster.Acls.{emit_acls}
use ovn_fabric.Cluster.Routes.{emit_routes, sort_table}

-- `s.removeprefix(prefix)`
stripped : String → String → Option String
stripped String.[] s = some s
stripped (String.◌∷◌ c p) String.[] = none
stripped (String.◌∷◌ c p) (String.◌∷◌ d s) =
    let rest = stripped p s in if code c == code d then rest else none

unfoldable pub remove_prefix : String → String → String
unfolding stripped
remove_prefix p s = elim (stripped p s) [ some t ↦ t | none ↦ s ]

-- The name of the switch's port for a router's port.
unfoldable pub lsp_name : String → String
unfolding remove_prefix
lsp_name port = "lsp-" <> remove_prefix "lrp-" port

ra_pairs : Option Settings → Pairs
ra_pairs none = []
ra_pairs (some fs) = ovn_settings fs

-- The router's port, where `chassis` are the captures of the gateways by the ids of their hosts.
unfoldable pub declared_lrp : String → PortNode → Option String → Declared
unfolding ra_pairs
declared_lrp router p none =
    object (lrp router p.name p.mac p.addresses none (ra_pairs p.ra_configs))
declared_lrp router p (some var) =
    pinned_lrp router p.name p.mac p.addresses var (ra_pairs p.ra_configs)

unfoldable pub chassis_of : Dict String → Option String → Outcome (Option String)
chassis_of chassis none = done none
chassis_of chassis (some id) = need id chassis >>= λ var. done (some var)

unfoldable pub port_unit : String → PortNode → String → Option String → Emission
unfolding lsp_name declared_lrp
port_unit router p domain var = opening "router port" (some (p.name <> " (" <> domain <> ")")) (
    declared_lrp router p var
    ∷ object (
        lsp domain (lsp_name p.name) (some "router") ("router" ∷ []) (("router-port", p.name) ∷ []))
    ∷ [])

unfoldable pub emit_port : String → Dict String → Dict String → PortNode → Emission
unfolding chassis_of port_unit
emit_port router domains chassis p =
    given (need p.segment domains)
      (λ domain. given (chassis_of chassis p.gateway_chassis) (port_unit router p domain))

-- `by_external`: the addresses behind each external one, rule by rule.
add_snats : List Rule → Dict (List (List String)) → Dict (List (List String))
add_snats [] d = d
add_snats (snat external logical ∷ rs) d = add_snats rs (push external logical d)
add_snats (r ∷ rs) d = add_snats rs d

unfoldable pub snats : List GroupNode → Dict (List (List String)) → Dict (List (List String))
unfolding add_snats
snats [] d = d
snats (g ∷ gs) d = snats gs (add_snats g.rules d)

unfoldable pub flat : List (List String) → List String
flat [] = []
flat (xs ∷ xss) = xs ++ flat xss

unfoldable pub nat_rows : String → Dict (List (List String)) → List Declared
unfolding flat
nat_rows router [] = []
nat_rows router ((external, rules) ∷ rest) =
    map (λ logical. object (nat router "snat" external logical false))
      (flat (sort_by texts_le rules))
    ++ nat_rows router rest

unfoldable pub nat_unit : String → Dict (List (List String)) → Emission
unfolding nat_rows
nat_unit router [] = nothing
nat_unit router d = opening "router NAT" (some router) (nat_rows router (sort_table d))

unfoldable pub emit_nat : String → List GroupNode → Emission
unfolding nat_unit
emit_nat router groups = nat_unit router (snats groups [])

-- The security groups of a router; one without a node has none.
unfoldable pub groups_of : Option RouterNode → List Node → Outcome (List GroupNode)
groups_of none ns = done []
groups_of (some r) ns = groups_from r.security_groups ns

router_options : Option RouterNode → Pairs
router_options none = []
router_options (some r) = ovn_settings r.options

names_joined : List GroupRef → Pairs
names_joined [] = []
names_joined rs = ("ovn-fabric.securityGroups", join "," (map (λ r. r.name) rs)) ∷ []

router_ids : Option RouterNode → Pairs
unfolding names_joined
router_ids none = []
router_ids (some r) = names_joined r.security_groups

unfoldable pub secured : String → Dict String → List PortNode → List GroupNode → Emission
secured router domains ports groups =
    emit_nat router groups then_emit emit_acls router domains ports groups

-- `_emit_router`
unfoldable pub emit_router :
    String
    → List PortNode
    → List RouteNode
    → Dict String
    → Dict String
    → Option RouterNode
    → List Node
    → Emission
unfolding groups_of router_options router_ids secured
emit_router router ports routes chassis domains node ns =
    opening "router" (some router) (object (lr router (router_options node) (router_ids node)) ∷ [])
    then_emit for_each (sort_by (by_name (λ p. p.name)) ports) (emit_port router domains chassis)
    then_emit given (groups_of node ns) (secured router domains ports)
    then_emit emit_routes router routes
