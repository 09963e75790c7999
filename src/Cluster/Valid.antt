-- ===== src/Cluster/Valid.antt =====
-- The raw graph of the cluster's objects passes `validate` (deployer/ir_common.py and
-- deployer/lifecycle.py together).
use mathlib.Core.Path.{subst}
use ovn_fabric.Prelude.{
  String, ◌≡◌, ◌≢◌, refl, sym, ap, ◌∙◌, true, false, none, List, [], ◌∷◌, ◌++◌, lookup,
  lookup-insert, str_eq, Bool-cases, inl, inr, arith,
}
use ovn_fabric.Value.{Value}
use ovn_fabric.Lifecycle.{
  Operation, primitive, directory, chmod_file, directory_node, chmod_node, RawNodeTemplate, Graph,
  upsert, validate, node,
}
use ovn_fabric.Lifecycle.GraphLaws.{Resolve, lookup-upsert}
use ovn_fabric.Primitives.Ovn.{OvnObject, ovn_key, ovn_primitive}
use ovn_fabric.Primitives.Owners.{ovn_owners, validate-upsert_ovn}
use ovn_fabric.Plan.Calls.{
  done, Call, unit, ovn, wait_capture, keyed_unit, does, capture_value, netns_symlink, Declared,
  object, pinned_lrp,
}
use ovn_fabric.Plan.Discipline.{Holds}
use ovn_fabric.Cluster.Nodes.{Node}
use ovn_fabric.Cluster.Body.{emit_cluster}
use ovn_fabric.Cluster.Owned.{
  filled, Keys, with_key, key_of, owners_of, IsOwned, OwnersFirst, IsFrom,
}
use ovn_fabric.Cluster.OwnersFirst.{emit_cluster-Emits}
use ovn_fabric.Sysdeps.Counts.{str_eq-eq, str_eq_refl}

-- The raw nodes that the CREATE of an operation adds (deployer/lifecycle.py, primitives_fs.py).
unfoldable pub op_nodes : Operation → List RawNodeTemplate
op_nodes (primitive p) = p.nodes
op_nodes (directory host path owned) = directory_node path ∷ []
op_nodes (chmod_file host path mode) = chmod_node path mode ∷ []
op_nodes _ = []

-- The raw graph after the CREATE of all objects, one after the other: `v` are the captured values.
unfoldable pub reflected : (String → Value) → List Call → Graph → Graph
reflected v [] g = g
reflected v (ovn on d ∷ cs) g = reflected v cs (upsert (ovn_primitive (filled v d)).nodes g)
reflected v (does on op ∷ cs) g = reflected v cs (upsert (op_nodes op) g)
reflected v (c ∷ cs) g = reflected v cs g

unfoldable pub empty_graph : String → Graph
empty_graph host = record { host = host; nodes = [] }

-- The graph has a node of every key.
abbrev HasKeys : Keys → Graph → Type 0
HasKeys p g = (k : String) → p k ≡ true → lookup k g.nodes ≢ none

single :
    (x : OvnObject)
    → (t : RawNodeTemplate) × ((ovn_primitive x).nodes ≡ t ∷ []) × (t.id ≡ ovn_key x)
unfolding ovn_primitive
single (OvnObject.ls name) = (_, refl, refl)
single _ = (_, refl, refl)

lookup-upsert_one :
    (t : RawNodeTemplate) (k : String) (g : Graph)
    → t.id ≡ k
    → lookup k (upsert (t ∷ []) g).nodes ≢ none
unfolding upsert
lookup-upsert_one t k g f =
    ground
      (arith, lookup-insert k t.id (node g.host t) g.nodes, ap (λ i. str_eq i k) f, str_eq_refl k)

lookup-upsert_own :
    (x : OvnObject) (g : Graph) → lookup (ovn_key x) (upsert (ovn_primitive x).nodes g).nodes ≢ none
lookup-upsert_own x g =
    let (t, e, f) = single x in
    subst (λ ts. lookup (ovn_key x) (upsert ts g).nodes ≢ none) (sym e)
      (lookup-upsert_one t (ovn_key x) g f)

module _ (v : String → Value) where
  key_of-filled : (d : Declared) → ovn_key (filled v d) ≡ key_of d
  unfolding filled ovn_key
  key_of-filled (object x) = refl
  key_of-filled (pinned_lrp router name mac networks chassis ra) = refl

  Resolve-filled :
      (p : Keys) (g : Graph) (d : Declared)
      → HasKeys p g
      → IsOwned p (owners_of d)
      → Resolve g (ovn_owners (filled v d))
  unfolding filled ovn_owners
  Resolve-filled p g (object x) h o = resolved (ovn_owners x) o
    where
      resolved : (ks : List String) → IsOwned p ks → Resolve g ks
      resolved [] j = tt
      resolved (k ∷ ks) (j, js) = (h k j, resolved ks js)
  Resolve-filled p g (pinned_lrp router name mac networks chassis ra) h (o, _) = (h _ o, tt)

  HasKeys-upsert :
      (p : Keys) (g : Graph) (d : Declared)
      → HasKeys p g
      → HasKeys (with_key (key_of d) p) (upsert (ovn_primitive (filled v d)).nodes g)
  HasKeys-upsert p g d h k e = elim (Bool-cases (p k)) [
    | inl f ↦ lookup-upsert k _ g (h k f)
    | inr f ↦
        let same : ovn_key (filled v d) ≡ k =
          key_of-filled d ∙ str_eq-eq (key_of d) k (ground (arith, e, f)) in
        subst (λ i. lookup i (upsert (ovn_primitive (filled v d)).nodes g).nodes ≢ none) same
          (lookup-upsert_own (filled v d) g)
  ]

  reflected-valid :
      (cs : List Call) (p : Keys) (g : Graph)
      → OwnersFirst p cs
      → HasKeys p g
      → validate g ≡ none
      → validate (reflected v cs g) ≡ none
  unfolding reflected
  reflected-valid [] p g o h e = e
  reflected-valid (ovn on d ∷ cs) p g (o, os) h e =
      reflected-valid cs (with_key (key_of d) p) (upsert (ovn_primitive (filled v d)).nodes g) os
        (HasKeys-upsert p g d h) (validate-upsert_ovn (filled v d) g e (Resolve-filled p g d h o))
  reflected-valid (unit kind subject ∷ cs) p g o h e = reflected-valid cs p g o h e
  reflected-valid (wait_capture on var argv ∷ cs) p g o h e = reflected-valid cs p g o h e
  reflected-valid (keyed_unit kind subject key ∷ cs) p g o h e = reflected-valid cs p g o h e
  reflected-valid (capture_value on var argv ∷ cs) p g o h e = reflected-valid cs p g o h e
  reflected-valid (netns_symlink on container pid_var ∷ cs) p g o h e = reflected-valid cs p g o h e
  reflected-valid (does on op ∷ cs) p g o h e = elim o [ ]

OwnersFirst-before :
    (p : Keys) (before after : List Call) → OwnersFirst p (before ++ after) → OwnersFirst p before
OwnersFirst-before p [] after h = tt
OwnersFirst-before p (ovn on d ∷ cs) after (o, h) =
    (o, OwnersFirst-before (with_key (key_of d) p) cs after h)
OwnersFirst-before p (does on op ∷ cs) after h = h
OwnersFirst-before p (unit kind subject ∷ cs) after h = OwnersFirst-before p cs after h
OwnersFirst-before p (wait_capture on var argv ∷ cs) after h = OwnersFirst-before p cs after h
OwnersFirst-before p (keyed_unit kind subject key ∷ cs) after h = OwnersFirst-before p cs after h
OwnersFirst-before p (capture_value on var argv ∷ cs) after h = OwnersFirst-before p cs after h
OwnersFirst-before p (netns_symlink on container pid_var ∷ cs) after h =
    OwnersFirst-before p cs after h

-- When the cluster of an IR can be declared, then after any number of the declared calls the raw
-- graph that their objects leave, one after the other on one graph that is empty at first, whatever
-- values the captures of the gateways get, passes `validate`: at each point every reference of a
-- node names a node that is there, so that no object comes before one that its node refers to.
pub emit_cluster-valid :
    (v : String → Value) (host : String) (ns : List Node) (before after : List Call)
    → emit_cluster ns 0 ≡ done (before ++ after)
    → validate (reflected v before (empty_graph host)) ≡ none
unfolding empty_graph validate
emit_cluster-valid v host ns before after e =
    let from : Holds (IsFrom (λ k. false) (λ k. false)) (done (before ++ after)) =
      subst (Holds (IsFrom (λ k. false) (λ k. false))) e (emit_cluster-Emits ns 0) in
    reflected-valid v before (λ k. false) (empty_graph host)
      (OwnersFirst-before (λ k. false) before after from.ordered)
      (λ k f. absurd (ground (arith, f))) refl
