-- ===== src/Primitives/Teardown.antt =====
-- A CREATE of primitives and then their DELETE (deployer/lifecycle.py), as one piece: what is left
-- of them in the raw graph.
use ovn_fabric.Prelude.{
  String, ◌≡◌, ◌≢◌, refl, sym, ap, ◌∙◌, true, false, none, List, [], ◌∷◌, map, reverse, All, Dict,
  lookup, lookup-insert, arith, eq_iff,
}
use ovn_fabric.Value.{Value, text, resolve, resolve_list}
use ovn_fabric.Lifecycle.{
  Host, ok, Run, Command, Primitive, Operation, primitive, Controller, RawNodeTemplate, Graph,
  upsert, remove, resolve_command, resolve_node, resolve_primitive, resolve_operation, create,
  delete, create_step, delete_step, create_all, delete_all, execute, caught, continue, node,
}
use ovn_fabric.Lifecycle.GraphLaws.{remove-upsert}
use ovn_fabric.Lifecycle.BestEffort.{delete_primitive_lem}
use ovn_fabric.Lifecycle.Strict.{create_primitive-eq-ok}
use ovn_fabric.Lifecycle.Inversion.{>>=-eq-ok}
use ovn_fabric.Lifecycle.Order.{delete_all-eq-foldl, execute-append_delete}
use ovn_fabric.Primitives.Build.{texts}
use ovn_fabric.Primitives.Objects.{AreTexts, IsRegular, planned-AreTexts}

resolve_list-texts :
    (store : Dict Value) (argv : List String) → resolve_list store (texts argv) ≡ texts argv
unfolding resolve_list texts resolve
resolve_list-texts store [] = refl
resolve_list-texts store (s ∷ ss) = ap (λ l. text s ∷ l) (resolve_list-texts store ss)

AreTexts-resolve_command :
    (store : Dict Value) (cmds : List Command)
    → AreTexts cmds
    → AreTexts (map (resolve_command store) cmds)
unfolding resolve_command
AreTexts-resolve_command store [] h = tt
AreTexts-resolve_command store (cmd ∷ cmds) h = (
  (h.0.0, ap (resolve_list store) (h.0.1) ∙ resolve_list-texts store h.0.0),
  AreTexts-resolve_command store cmds h.1,
)

ids-resolve_node :
    (store : Dict Value) (key : String) (ts : List RawNodeTemplate)
    → All (λ t. t.id ≡ key) ts
    → All (λ t. t.id ≡ key) (map (resolve_node store) ts)
unfolding resolve_node
ids-resolve_node store key [] h = tt
ids-resolve_node store key (t ∷ ts) h = (h.0, ids-resolve_node store key ts h.1)

IsRegular-resolve_primitive :
    (store : Dict Value) (p : Primitive) → IsRegular p → IsRegular (resolve_primitive store p)
unfolding resolve_primitive
IsRegular-resolve_primitive store p h = record {
  own = ids-resolve_node store p.key p.nodes h.own;
  deletes = AreTexts-resolve_command store p.delete_cmds h.deletes;
}

lookup-upsert_other :
    (k key : String) (ts : List RawNodeTemplate) (g : Graph)
    → All (λ t. t.id ≡ key) ts
    → key ≢ k
    → lookup k (upsert ts g).nodes ≡ lookup k g.nodes
unfolding upsert
lookup-upsert_other k key [] g own differ = refl
lookup-upsert_other k key (t ∷ ts) g own differ =
    lookup-upsert_other k key ts _ own.1 differ
    ∙ ground (arith, lookup-insert k t.id (node g.host t) g.nodes, eq_iff t.id k, own.0)

module _ (host : Host) (c : Controller) (real : c.dry_run ≡ false)
    (deleting : c.creating ≡ false) where
  -- A DELETE of one primitive.
  delete_step-graph :
      (p : Primitive) (s : Run)
      → IsRegular p
      → (delete_step host c (primitive p) s).1.graph ≡ remove p.key s.graph
  unfolding delete_step delete resolve_operation resolve_primitive caught
  delete_step-graph p s h =
      let q = resolve_primitive s.store p in
      let (acts, plan, n) =
        planned-AreTexts c q.delete_cmds (IsRegular-resolve_primitive s.store p h).deletes in
      let (w, ran) = delete_primitive_lem host c deleting q acts s plan in
      ap (λ a. (caught host c a.0 a.1).1.graph) ran

  execute_none : (s : Run) → execute host c [] s ≡ (ok tt, s)
  unfolding execute delete_all
  execute_none s = simp (real, deleting)

  execute-one :
      (op : Operation) (s : Run) → execute host c (op ∷ []) s ≡ (ok tt, (delete_step host c op s).1)
  unfolding execute
  execute-one op s = simp (real, deleting, delete_all-eq-foldl host c (op ∷ []) s)

  execute-ok : (ops : List Operation) (s : Run) → (execute host c ops s).0 ≡ ok tt
  unfolding execute
  execute-ok ops s = simp (real, deleting, delete_all-eq-foldl host c (reverse ops) s)

  execute-cons :
      (op : Operation) (ops : List Operation) (s : Run)
      → (execute host c (op ∷ ops) s).1 ≡ (delete_step host c op (execute host c ops s).1).1
  execute-cons op ops s =
      ap (λ q. q.1) (execute-append_delete host c (op ∷ []) ops s real deleting)
      ∙ ap (λ a. (continue a (λ _. execute host c (op ∷ [])) (execute host c ops s).1).1)
          (execute-ok ops s)
      ∙ ap (λ q. q.1) (execute-one op (execute host c ops s).1)

-- No key of the primitives is in the graph, and no two of them have one key.
abbrev pub IsFresh : Graph → List Primitive → Type 0
IsFresh g [] = Unit
IsFresh g (p ∷ ps) = (lookup p.key g.nodes ≡ none) × All (λ q. p.key ≢ q.key) ps × IsFresh g ps

IsFresh-upsert :
    (key : String) (ts : List RawNodeTemplate) (g : Graph) (ps : List Primitive)
    → All (λ t. t.id ≡ key) ts
    → All (λ q. key ≢ q.key) ps
    → IsFresh g ps
    → IsFresh (upsert ts g) ps
IsFresh-upsert key ts g [] own differ h = tt
IsFresh-upsert key ts g (p ∷ ps) own differ h = (
  lookup-upsert_other p.key key ts g own differ.0 ∙ h.0,
  h.1,
  IsFresh-upsert key ts g ps own differ.1 h.2,
)

-- The raw graph after the CREATE of one primitive.
create_step-graph :
    (host : Host) (c : Controller) (p : Primitive) (r mid : Run)
    → c.creating ≡ true
    → create_step host c (primitive p) r ≡ (ok tt, mid)
    → mid.graph ≡ upsert (resolve_primitive r.store p).nodes r.graph
unfolding create_step create resolve_operation
create_step-graph host c p r mid creating h =
    (create_primitive-eq-ok host c creating (resolve_primitive r.store p) r mid h).4

-- When a CREATE of primitives has gone well, and none of their keys was in the raw graph nor two of
-- them have one key, a DELETE of the same queue that is no dry run leaves the raw graph as it was
-- before the CREATE: whatever the host answers to it, in any later state that has the graph that
-- the CREATE made. Each primitive has its own key for its nodes' ids, and commands of texts for its
-- DELETE.
pub execute-create_all :
    (host later : Host) (c d : Controller) (ps : List Primitive) (r mid s : Run)
    → c.creating ≡ true
    → d.dry_run ≡ false
    → d.creating ≡ false
    → All IsRegular ps
    → IsFresh r.graph ps
    → create_all host c (map primitive ps) r ≡ (ok tt, mid)
    → s.graph ≡ mid.graph
    → (execute later d (map primitive ps) s).1.graph ≡ r.graph
unfolding create_all resolve_primitive
execute-create_all host later c d [] r mid s creating real deleting own fresh h same =
    ap (λ q. q.1.graph) (execute_none later d real deleting s) ∙ same ∙ sym (ap (λ q. q.1.graph) h)
execute-create_all host later c d (p ∷ ps) r mid s creating real deleting own fresh h same =
    let (u, one, first, rest) = >>=-eq-ok (create_step host c (primitive p)) _ r mid h in
    let made = create_step-graph host c p r one creating first in
    let q = resolve_primitive r.store p in
    let regular = IsRegular-resolve_primitive r.store p own.0 in
    let fresh' : IsFresh one.graph ps =
      rw made (IsFresh-upsert p.key q.nodes r.graph ps regular.own fresh.1 fresh.2) in
    let ih =
      execute-create_all host later c d ps one mid s creating real deleting own.1 fresh' rest
        same in
    ap (λ x. x.graph) (execute-cons later d real deleting (primitive p) (map primitive ps) s)
    ∙ delete_step-graph later d real deleting p _ own.0
    ∙ ap (remove p.key) (ih ∙ made)
    ∙ remove-upsert p.key q.nodes r.graph regular.own fresh.0
