-- ===== src/Cluster/Choices.antt =====
-- What is left out of a cluster (deployer/ir_common.py): routes that are not the best of their
-- prefix (`_emit_router_routes`), and the ACLs of groups without rules (`_emit_router_acl`).
use ovn_fabric.Prelude.{
  ℕ, ◌≤◌, String, ◌≡◌, refl, ap, Bool, true, false, List, [], ◌∷◌, All, Dict, Bool-cases, inl, inr,
  arith, if◌then◌else◌,
}
use mathlib.Core.Path.{subst}
use ovn_fabric.Plan.Calls.{Outcome, done, failed, nothing}
use ovn_fabric.Cluster.Nodes.{RouteNode, GroupNode, PortNode}
use ovn_fabric.Cluster.Sorting.{place_by, sort_by}
use ovn_fabric.Cluster.Routes.{route_le, agree, first_of, best_of}
use ovn_fabric.Cluster.Acls.{has_acls, emit_acls}
use ovn_fabric.Cluster.Kept.{All-place_by, All-sort_by}
use ovn_fabric.Sysdeps.Counts.{str_eq-eq}

-- The first route has the lowest metric.
abbrev HasLeast : List RouteNode → Type 0
HasLeast [] = Unit
HasLeast (r ∷ rs) = All (λ n. r.metric ≤ n.metric) rs

least_before :
    (r s : RouteNode) (rs : List RouteNode)
    → r.metric ≤ s.metric
    → All (λ n. s.metric ≤ n.metric) rs
    → All (λ n. r.metric ≤ n.metric) rs
least_before r s [] h k = tt
least_before r s (n ∷ rs) h (k, ks) = (omega (arith, h, k), least_before r s rs h ks)

HasLeast-if :
    (b : Bool) (xs ys : List RouteNode)
    → (b ≡ true → HasLeast xs)
    → (b ≡ false → HasLeast ys)
    → HasLeast (if b then xs else ys)
HasLeast-if true xs ys h k = h refl
HasLeast-if false xs ys h k = k refl

HasLeast-place_by :
    (r : RouteNode) (rs : List RouteNode) → HasLeast rs → HasLeast (place_by route_le r rs)
unfolding place_by route_le
HasLeast-place_by r [] h = tt
HasLeast-place_by r (s ∷ rs) h =
    HasLeast-if (route_le r s) (r ∷ s ∷ rs) (s ∷ place_by route_le r rs)
      (λ e.
        let first : r.metric ≤ s.metric = ground (arith, e) in (first, least_before r s rs first h))
      (λ e. All-place_by (λ n. s.metric ≤ n.metric) route_le r rs (ground (arith, e)) h)

HasLeast-sort_by : (rs : List RouteNode) → HasLeast (sort_by route_le rs)
unfolding sort_by
HasLeast-sort_by [] = tt
HasLeast-sort_by (r ∷ rs) = HasLeast-place_by r (sort_by route_le rs) (HasLeast-sort_by rs)

module _ (P : RouteNode → Type 0) where
  All-unplace_by :
      (r : RouteNode) (rs : List RouteNode) → All P (place_by route_le r rs) → P r × All P rs
  unfolding place_by
  All-unplace_by r [] h = h
  All-unplace_by r (s ∷ rs) h = split (route_le r s) (λ k. All-unplace_by r rs k) h
    where
      -- The two ways in which `r` is placed.
      split :
          (b : Bool)
          → (All P (place_by route_le r rs) → P r × All P rs)
          → All P (if b then r ∷ s ∷ rs else s ∷ place_by route_le r rs)
          → P r × All P (s ∷ rs)
      split true rest (p, ps) = (p, ps)
      split false rest (p, ps) = let (q, qs) = rest ps in (q, (p, qs))

  All-unsort_by : (rs : List RouteNode) → All P (sort_by route_le rs) → All P rs
  unfolding sort_by
  All-unsort_by [] h = tt
  All-unsort_by (r ∷ rs) h =
      let (p, ps) = All-unplace_by r (sort_by route_le rs) h in (p, All-unsort_by rs ps)

-- No worse than the route `n`, and the same next hop where it is as good.
abbrev pub IsBetter : RouteNode → RouteNode → Type 0
IsBetter r n = (r.metric ≤ n.metric) × (n.metric ≡ r.metric → n.nexthop ≡ r.nexthop)

agreed :
    (r : RouteNode) (rs : List RouteNode)
    → agree r rs ≡ true
    → All (λ n. r.metric ≤ n.metric) rs
    → All (IsBetter r) rs
unfolding agree
agreed r [] h k = tt
agreed r (n ∷ rs) h (k, ks) = (
  (k, λ e. str_eq-eq n.nexthop r.nexthop (ground (arith, h, e))),
  agreed r rs (ground (arith, h)) ks,
)

first_of-least :
    (s : RouteNode) (rs : List RouteNode) (r : RouteNode)
    → first_of (s ∷ rs) ≡ done r
    → (s ≡ r) × (agree s (s ∷ rs) ≡ true)
unfolding first_of
first_of-least s rs r e = elim (Bool-cases (agree s (s ∷ rs))) [
  | inl a ↦ (done-eq (ground (arith, a, e)), a)
  | inr a ↦ absurd (ground (arith, a, e))
]
  where
    done-eq : done s ≡ done r → s ≡ r
    done-eq f = ap (λ (o : Outcome RouteNode). elim o [ done x ↦ x | failed x ↦ s ]) f

module _ (P : RouteNode → Type 0) where
  -- What `first_of` has of a list that starts with a least element.
  first_of-IsBetter :
      (rs : List RouteNode) (r : RouteNode)
      → HasLeast rs
      → first_of rs ≡ done r
      → All (IsBetter r) rs × (All P rs → P r)
  unfolding first_of
  first_of-IsBetter [] r h e = (tt, λ k. absurd (ground (arith, e)))
  first_of-IsBetter (s ∷ rs) r h e =
      let (same, a) = first_of-least s rs r e in
      (
        subst (λ x. All (IsBetter x) (s ∷ rs)) same (agreed s (s ∷ rs) a (omega arith, h)),
        λ (k, ks). subst P same k,
      )

-- The route that is kept of a prefix's routes is one of them (what holds of all holds of it), none
-- has a lower metric, and those of the same metric have the same next hop.
pub best_of-IsBetter :
    (group : List RouteNode) (r : RouteNode) (P : RouteNode → Type 0)
    → best_of group ≡ done r
    → All (IsBetter r) group × (All P group → P r)
unfolding best_of
best_of-IsBetter group r P e =
    let (better, one) = first_of-IsBetter P (sort_by route_le group) r (HasLeast-sort_by group) e in
    (All-unsort_by (IsBetter r) group better, λ h. one (All-sort_by P route_le group h))

no_acls : (gs : List GroupNode) → All (λ g. g.rules ≡ []) gs → has_acls gs ≡ false
unfolding has_acls
no_acls [] h = refl
no_acls (g ∷ gs) (h, hs) = rw h (no_acls gs hs)

-- For groups that have no rules the declaration of the ACLs has no calls, whatever their defaults
-- are.
pub emit_acls-nothing :
    (router : String) (domains : Dict String) (ports : List PortNode) (groups : List GroupNode)
    (n : ℕ)
    → All (λ g. g.rules ≡ []) groups
    → emit_acls router domains ports groups n ≡ done []
unfolding emit_acls nothing
emit_acls-nothing router domains ports groups n h = rw (no_acls groups h) refl
