-- ===== src/Cluster/OwnersFirst.antt =====
-- In the declaration of the whole cluster (deployer/ir_common.py, `_emit_cluster_body`) every object
-- comes after its owners, so its raw graph is valid.
use ovn_fabric.Prelude.{
  String, ◌≡◌, refl, ap, Bool, true, false, ◌||◌, some, List, [], ◌∷◌, any, Dict, lookup, insert,
  lookup-insert, str_eq, Bool-cases, inl, inr, ◌⊎◌, arith,
}
use ovn_fabric.Primitives.Ovn.{ovn_key}
use ovn_fabric.Primitives.Ovn.Kinds.{ls}
use ovn_fabric.Primitives.Owners.{ovn_owners}
use ovn_fabric.Sysdeps.Counts.{str_eq_refl}
use ovn_fabric.Plan.Calls.{for_each}
use ovn_fabric.Cluster.Nodes.{SwitchNode, PortNode, Node, switch_node}
use ovn_fabric.Cluster.Sorting.{place_by, sort_by, by_name}
use ovn_fabric.Cluster.Groups.{domain_names, switches_of}
use ovn_fabric.Cluster.Body.{
  emit_switch, localnet, emit_captures, emit_capture, emit_one, emit_cluster,
}
use ovn_fabric.Cluster.Owned.{
  Keys, with_key, IsWithin, Emits, Emits-nothing, Emits-capturing, Emits-opening, Emits-opening_one,
  Emits-given, Emits-for_each, Emits-then_emit, Emits-weaker,
}
use ovn_fabric.Cluster.OwnedAcls.{HasSwitch, HasDomains}
use ovn_fabric.Cluster.OwnedRouters.{emit_router-Emits}

-- The key is one of the switches'.
abbrev is_switch : List SwitchNode → Keys
is_switch ss k = any (λ s. str_eq (ovn_key (ls s.name)) k) ss

localnet-Emits :
    (p : Keys) (name : String) (b : Bool) → HasSwitch p name → Emits p (localnet name b) p
unfolding localnet ovn_owners
localnet-Emits p name true h = Emits-opening p _ _ _ ((h, tt), tt)
localnet-Emits p name false h = Emits-nothing p

emit_switch-Emits :
    (p : Keys) (ns : List Node) (s : SwitchNode)
    → Emits p (emit_switch ns s) (with_key (ovn_key (ls s.name)) p)
unfolding emit_switch ovn_owners
emit_switch-Emits p ns s =
    Emits-then_emit p q q _ _ (Emits-opening_one p _ _ _ tt)
      (localnet-Emits q s.name _ (ground (arith, str_eq_refl (ovn_key (ls s.name)))))
  where
    q : Keys
    q = with_key (ovn_key (ls s.name)) p

switches-Emits :
    (ss : List SwitchNode) (p : Keys) (ns : List Node)
    → Emits p (for_each ss (emit_switch ns)) (λ k. p k || is_switch ss k)
unfolding for_each
switches-Emits [] p ns = Emits-weaker p p _ _ (λ k e. ground (arith, e)) (Emits-nothing p)
switches-Emits (s ∷ ss) p ns =
    let q : Keys = with_key (ovn_key (ls s.name)) p in
    Emits-weaker p (λ k. q k || is_switch ss k) _ _ (λ k e. ground (arith, e))
      (Emits-then_emit p q _ _ _ (emit_switch-Emits p ns s) (switches-Emits ss q ns))

captures-Emits :
    (p : Keys) (hosts : Dict String) (ids : List String) → Emits p (emit_captures hosts ids) p
unfolding emit_captures emit_capture
captures-Emits p hosts ids =
    Emits-for_each p ids _ (λ id. Emits-given p p _ _ (λ host e. Emits-capturing p _ _ _ _))

-- Sorting loses no switch.
is_switch-place_by :
    (le : SwitchNode → SwitchNode → Bool) (s : SwitchNode) (ss : List SwitchNode) (k : String)
    → is_switch (place_by le s ss) k ≡ is_switch (s ∷ ss) k
unfolding place_by
is_switch-place_by le s [] k = refl
is_switch-place_by le s (t ∷ ss) k = ground (arith, is_switch-place_by le s ss k)

is_switch-sort_by :
    (le : SwitchNode → SwitchNode → Bool) (ss : List SwitchNode) (k : String)
    → is_switch (sort_by le ss) k ≡ is_switch ss k
unfolding sort_by
is_switch-sort_by le [] k = refl
is_switch-sort_by le (s ∷ ss) k =
    ground (arith, is_switch-place_by le s (sort_by le ss) k, is_switch-sort_by le ss k)

first_or_before :
    (x : SwitchNode) (d : Dict String) (k s : String)
    → lookup k (insert x.id x.name d) ≡ some s
    → (ns : List Node)
    → (lookup k d ≡ some s) ⊎ (is_switch (x ∷ switches_of ns) (ovn_key (ls s)) ≡ true)
first_or_before x d k s e ns = elim (Bool-cases (str_eq x.id k)) [
  | inl f ↦
      let same : x.name ≡ s = ground (arith, e, f, lookup-insert k x.id x.name d) in
      inr (
        ground (
          arith,
          ap (λ n. str_eq (ovn_key (ls n)) (ovn_key (ls s))) same,
          str_eq_refl (ovn_key (ls s)),
        ))
  | inr f ↦ inl (ground (arith, e, f, lookup-insert k x.id x.name d))
]

-- A name of the table is a switch's, or was there before.
domain_names-is_switch :
    (ns : List Node) (d : Dict String) (k s : String)
    → lookup k (domain_names ns d) ≡ some s
    → (lookup k d ≡ some s) ⊎ (is_switch (switches_of ns) (ovn_key (ls s)) ≡ true)
unfolding domain_names switches_of
domain_names-is_switch [] d k s h = inl h
domain_names-is_switch (switch_node x ∷ ns) d k s h =
    elim (domain_names-is_switch ns (insert x.id x.name d) k s h) [
      | inl e ↦ first_or_before x d k s e ns
      | inr e ↦ inr (ground (arith, e))
    ]
domain_names-is_switch (n ∷ ns) d k s h = domain_names-is_switch ns d k s h

-- Every object of the cluster comes after its owners.
pub emit_cluster-Emits : (ns : List Node) → Emits (λ k. false) (emit_cluster ns) (λ k. false)
unfolding emit_cluster emit_one lookup
emit_cluster-Emits ns =
    Emits-weaker nil q _ _ (λ k e. ground (arith, e))
      (Emits-then_emit nil q q _ _
        (Emits-then_emit nil q q _ _
          (Emits-weaker nil (λ k. is_switch sorted k) q _ keep (switches-Emits sorted nil ns))
          (captures-Emits q _ _))
        (Emits-for_each q _ _ (one _)))
  where
    nil : Keys
    nil k = false

    q : Keys
    q = is_switch (switches_of ns)

    sorted : List SwitchNode
    sorted = sort_by (by_name (λ s. s.name)) (switches_of ns)

    keep : IsWithin q (λ k. is_switch sorted k)
    keep k e = ground (arith, e, is_switch-sort_by (by_name (λ s. s.name)) (switches_of ns) k)

    fits : HasDomains q (domain_names ns [])
    fits k s e = elim (domain_names-is_switch ns [] k s e) [
      | inl f ↦ absurd (ground (arith, f))
      | inr f ↦ f
    ]

    one : (chassis : Dict String) (e : String × List PortNode) → Emits q (emit_one ns chassis e) q
    one chassis (router, ports) =
        emit_router-Emits q router ports _ chassis (domain_names ns []) _ ns fits
