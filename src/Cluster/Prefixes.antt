-- ===== src/Cluster/Prefixes.antt =====
-- The routes of a router (deployer/ir_common.py, `_emit_router_routes`) have one for each prefix: OVN
-- refuses a second one.
use ovn_fabric.Prelude.{
  ◌+◌, String, ◌≡◌, refl, sym, ap, ap₂, ◌∙◌, true, ◌||◌, List, [], ◌∷◌, ◌++◌, map, keys, All,
  All-append, Dict, lookup, insert, contains, str_eq, Bool-cases, inl, inr, arith, if◌then◌else◌,
}
use mathlib.Core.Path.{subst}
use ovn_fabric.Plan.Calls.{Outcome, done, failed}
use ovn_fabric.Plan.Discipline.{Holds}
use ovn_fabric.Cluster.Kept.{Holds->>=}
use ovn_fabric.Cluster.Nodes.{RouteNode}
use ovn_fabric.Cluster.Sorting.{group_by, push, or_nil}
use ovn_fabric.Cluster.Routes.{best_of, best_routes}
use ovn_fabric.Cluster.Choices.{best_of-IsBetter}
use ovn_fabric.Sysdeps.Counts.{one_if, count, str_eq-eq}

module _ {V : Type 0} where
  contains-keys-insert :
      (j k : String) (v : V) (d : Dict V)
      → contains (keys (insert k v d)) j ≡ (contains (keys d) j || str_eq k j)
  unfolding insert
  contains-keys-insert j k v [] = ground arith
  contains-keys-insert j k v ((i, w) ∷ d) = elim (Bool-cases (str_eq i k)) [
    | inl e ↦ ground (arith, e, ap (λ x. str_eq x j) (str_eq-eq i k e))
    | inr e ↦ ground (arith, e, contains-keys-insert j k v d)
  ]

  count-keys-insert :
      (j k : String) (v : V) (d : Dict V)
      → count j (keys (insert k v d))
        ≡ (if contains (keys d) k then count j (keys d) else count j (keys d) + one_if (str_eq k j))
  unfolding insert count
  count-keys-insert j k v [] = ground arith
  count-keys-insert j k v ((i, w) ∷ d) = elim (Bool-cases (str_eq i k)) [
    | inl e ↦ ground (arith, e)
    | inr e ↦ ground (arith, e, count-keys-insert j k v d)
  ]

  -- Each key once, still.
  once :
      (k : String) (v : V) (d : Dict V)
      → ((j : String) → count j (keys d) ≡ one_if (contains (keys d) j))
      → (i : String) → count i (keys (insert k v d)) ≡ one_if (contains (keys (insert k v d)) i)
  once k v d h i = ground (
    arith,
    h i,
    contains-keys-insert i k v d,
    count-keys-insert i k v d,
    λ (e : str_eq k i ≡ true). ap (contains (keys d)) (str_eq-eq k i e),
  )

module _ {A : Type 0} (f : A → String) where
  -- A table with each key once has each key once when the elements are put into it.
  count-keys-group_by :
      (xs : List A) (d : Dict (List A))
      → ((j : String) → count j (keys d) ≡ one_if (contains (keys d) j))
      → (j : String)
      → count j (keys (group_by f xs d)) ≡ one_if (contains (keys d) j || contains (map f xs) j)
  unfolding group_by push
  count-keys-group_by [] d h j = ground (arith, h j)
  count-keys-group_by (x ∷ xs) d h j = ground (
    arith,
    count-keys-group_by xs (push (f x) x d) (λ i. once (f x) _ d h i) j,
    contains-keys-insert j (f x) (or_nil (lookup (f x) d) ++ (x ∷ [])) d,
  )

-- Every group of the table has the routes of its prefix.
abbrev AreGroups : Dict (List RouteNode) → Type 0
AreGroups d = All (λ (e : String × List RouteNode). All (λ r. r.prefix ≡ e.0) e.1) d

-- The group of a prefix, and a group in its place.
AreGroups-insert :
    (k : String) (g : List RouteNode) (d : Dict (List RouteNode))
    → All (λ r. r.prefix ≡ k) g
    → AreGroups d
    → AreGroups (insert k g d)
unfolding insert
AreGroups-insert k g [] h j = (h, tt)
AreGroups-insert k g ((i, w) ∷ d) h (j, js) = elim (Bool-cases (str_eq i k)) [
  | inl e ↦
      rw e (subst (λ x. All (λ (r : RouteNode). r.prefix ≡ x) g) (sym (str_eq-eq i k e)) h, js)
  | inr e ↦ rw e (j, AreGroups-insert k g d h js)
]

or_nil-lookup :
    (k : String) (d : Dict (List RouteNode))
    → AreGroups d
    → All (λ (n : RouteNode). n.prefix ≡ k) (or_nil (lookup k d))
unfolding lookup or_nil
or_nil-lookup k [] h = tt
or_nil-lookup k ((i, g) ∷ d) (h, hs) = elim (Bool-cases (str_eq i k)) [
  | inl e ↦ rw e (subst (λ x. All (λ (n : RouteNode). n.prefix ≡ x) g) (str_eq-eq i k e) h)
  | inr e ↦ rw e (or_nil-lookup k d hs)
]

AreGroups-push :
    (r : RouteNode) (d : Dict (List RouteNode)) → AreGroups d → AreGroups (push r.prefix r d)
unfolding push
AreGroups-push r d h =
    AreGroups-insert r.prefix _ d
      (All-append (λ (n : RouteNode). n.prefix ≡ r.prefix) (or_nil (lookup r.prefix d)) (r ∷ [])
        (or_nil-lookup r.prefix d h) (refl, tt))
      h

AreGroups-group_by :
    (rs : List RouteNode) (d : Dict (List RouteNode))
    → AreGroups d
    → AreGroups (group_by (λ n. n.prefix) rs d)
unfolding group_by
AreGroups-group_by [] d h = h
AreGroups-group_by (r ∷ rs) d h = AreGroups-group_by rs (push r.prefix r d) (AreGroups-push r d h)

best_of-prefix :
    (k : String) (g : List RouteNode)
    → All (λ r. r.prefix ≡ k) g
    → Holds (λ r. r.prefix ≡ k) (best_of g)
best_of-prefix k g h = from (best_of g) refl
  where
    from : (o : Outcome RouteNode) → best_of g ≡ o → Holds (λ r. r.prefix ≡ k) o
    from (done r) e = (best_of-IsBetter g r (λ n. n.prefix ≡ k) e).1 h
    from (failed x) e = tt

-- The routes that are kept have the prefixes of the table's groups.
best_routes-keys :
    (d : Dict (List RouteNode))
    → AreGroups d
    → Holds (λ best. map (λ r. r.prefix) best ≡ keys d) (best_routes d)
unfolding best_routes
best_routes-keys [] h = refl
best_routes-keys ((k, g) ∷ d) (h, hs) =
    Holds->>= (λ r. r.prefix ≡ k) (λ best. map (λ r. r.prefix) best ≡ k ∷ keys d) (best_of g) _
      (best_of-prefix k g h)
      (λ r e.
        Holds->>= (λ best. map (λ r. r.prefix) best ≡ keys d)
          (λ best. map (λ r. r.prefix) best ≡ k ∷ keys d) (best_routes d) (λ rs. done (r ∷ rs))
          (best_routes-keys d hs) (λ rs f. ap₂ ◌∷◌ e f))

-- When the routes of a router can be declared, those that are kept have each prefix of its routes
-- once, and no other.
pub best_routes-prefixes :
    (rs best : List RouteNode)
    → best_routes (group_by (λ n. n.prefix) rs []) ≡ done best
    → (k : String)
    → count k (map (λ r. r.prefix) best) ≡ one_if (contains (map (λ r. r.prefix) rs) k)
unfolding count
best_routes-prefixes rs best e k =
    ap (count k) (
      subst (Holds (λ best. map (λ r. r.prefix) best ≡ keys (group_by (λ n. n.prefix) rs []))) e
        (best_routes-keys (group_by (λ n. n.prefix) rs []) (AreGroups-group_by rs [] tt)))
    ∙ count-keys-group_by (λ n. n.prefix) rs [] (λ j. refl) k
