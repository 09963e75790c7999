-- ===== src/Cluster/OwnedRouters.antt =====
-- A router's parts (deployer/ir_common.py, `_emit_router`) come after it and after their switches.
use ovn_fabric.Prelude.{
  String, ◌≡◌, true, false, Option, none, some, List, [], ◌∷◌, map, All, All-append, Dict, arith,
}
use ovn_fabric.Primitives.Ovn.{OvnObject, ovn_key}
use ovn_fabric.Primitives.Ovn.Kinds.{lr, nat}
use ovn_fabric.Primitives.Owners.{ovn_owners}
use ovn_fabric.Sysdeps.Counts.{str_eq_refl}
use ovn_fabric.Plan.Calls.{object}
use ovn_fabric.Cluster.Nodes.{PortNode, RouteNode, RouterNode, GroupNode, Node}
use ovn_fabric.Cluster.Sorting.{sort_by, texts_le}
use ovn_fabric.Cluster.Routes.{emit_routes, routes_emission, domain_routes, sort_table}
use ovn_fabric.Cluster.Routers.{
  declared_lrp, port_unit, emit_port, nat_rows, nat_unit, emit_nat, secured, emit_router, flat,
}
use ovn_fabric.Cluster.Owned.{
  Keys, with_key, IsOwned, owners_of, Emits, Emits-nothing, Emits-opening, Emits-opening_one,
  Emits-given, Emits-for_each, Emits-then_emit, Emits-weaker,
}
use ovn_fabric.Cluster.OwnedAcls.{
  HasSwitch, HasDomains, need-HasSwitch, Emits-supplied, emit_acls-Emits,
}

module _ (p : Keys) (router : String) (there : p (ovn_key (lr router [] [])) ≡ true) where
  declared_lrp-IsOwned :
      (x : PortNode) (var : Option String) → IsOwned p (owners_of (declared_lrp router x var))
  unfolding declared_lrp ovn_owners
  declared_lrp-IsOwned x none = (there, tt)
  declared_lrp-IsOwned x (some v) = (there, tt)

  emit_port-Emits :
      (domains chassis : Dict String) (x : PortNode)
      → HasDomains p domains
      → Emits p (emit_port router domains chassis x) p
  unfolding emit_port port_unit ovn_owners
  emit_port-Emits domains chassis x h =
      Emits-supplied p (HasSwitch p) _ _ (need-HasSwitch p x.segment domains h) (λ domain k.
        Emits-given p p _ _
          (λ var e. Emits-opening p _ _ _ (declared_lrp-IsOwned x var, ((k, tt), tt))))

  nat_objects-IsOwned :
      (external : String) (ips : List String)
      → All
          (λ d. IsOwned p (owners_of d))
          (map (λ logical. object (nat router "snat" external logical false)) ips)
  unfolding ovn_owners
  nat_objects-IsOwned external [] = tt
  nat_objects-IsOwned external (ip ∷ ips) = ((there, tt), nat_objects-IsOwned external ips)

  nat_rows-IsOwned :
      (d : Dict (List (List String))) → All (λ x. IsOwned p (owners_of x)) (nat_rows router d)
  unfolding nat_rows
  nat_rows-IsOwned [] = tt
  nat_rows-IsOwned ((external, rules) ∷ d) =
      All-append (λ x. IsOwned p (owners_of x)) _ (nat_rows router d)
        (nat_objects-IsOwned external (flat (sort_by texts_le rules))) (nat_rows-IsOwned d)

  nat_unit-Emits : (d : Dict (List (List String))) → Emits p (nat_unit router d) p
  unfolding nat_unit
  nat_unit-Emits [] = Emits-nothing p
  nat_unit-Emits (e ∷ d) = Emits-opening p _ _ _ (nat_rows-IsOwned (sort_table (e ∷ d)))

  routes-IsOwned :
      (rs : List RouteNode)
      → All
          (λ d. IsOwned p (owners_of d))
          (map (λ n. object (OvnObject.route router n.prefix n.nexthop)) rs)
  unfolding ovn_owners
  routes-IsOwned [] = tt
  routes-IsOwned (r ∷ rs) = ((there, tt), routes-IsOwned rs)

  emit_routes-Emits : (rs : List RouteNode) → Emits p (emit_routes router rs) p
  unfolding emit_routes routes_emission domain_routes
  emit_routes-Emits rs = Emits-given p p _ _ (λ best e. Emits-for_each p _ _ (λ t. by_domain t))
    where
      by_domain : (t : String × List RouteNode) → Emits p (domain_routes router t) p
      by_domain (domain, ns) = Emits-opening p _ _ _ (routes-IsOwned _)

  secured-Emits :
      (domains : Dict String) (ports : List PortNode) (groups : List GroupNode)
      → HasDomains p domains
      → Emits p (secured router domains ports groups) p
  unfolding secured emit_nat
  secured-Emits domains ports groups h =
      Emits-then_emit p p p _ _ (nat_unit-Emits _) (emit_acls-Emits p router domains ports groups h)

-- Where the switches of its table are there, a router is declared with all its parts after it.
pub emit_router-Emits :
    (p : Keys) (router : String) (ports : List PortNode) (routes : List RouteNode)
    (chassis domains : Dict String) (known : Option RouterNode) (ns : List Node)
    → HasDomains p domains
    → Emits p (emit_router router ports routes chassis domains known ns) p
unfolding emit_router ovn_owners ovn_key
emit_router-Emits p router ports routes chassis domains known ns h =
    Emits-weaker p q p _ (λ k e. ground (arith, e))
      (Emits-then_emit p q q _ _
        (Emits-then_emit p q q _ _
          (Emits-then_emit p q q _ _ (Emits-opening_one p _ _ _ tt)
            (Emits-for_each q _ _ (λ x. emit_port-Emits q router there domains chassis x fits)))
          (Emits-given q q _ _
            (λ groups e. secured-Emits q router there domains ports groups fits)))
        (emit_routes-Emits q router there routes))
  where
    q : Keys
    q = with_key (ovn_key (lr router [] [])) p

    there : q (ovn_key (lr router [] [])) ≡ true
    there = ground (arith, str_eq_refl (ovn_key (lr router [] [])))

    fits : HasDomains q domains
    fits k s e = ground (arith, h k s e)
