-- ===== src/Lifecycle/GraphLaws.antt =====
-- The raw graph of a run (deployer/lifecycle.py, `RawGraphBuilder`): `remove` undoes `upsert`, and
-- what `validate` accepts.
use ovn_fabric.Prelude.{
  String, ◌≡◌, ◌≢◌, refl, ap, ◌∙◌, none, List, [], ◌∷◌, All, Bool-cases, Option-cases, ◌↔◌, inl,
  inr, Dict, lookup, insert, erase-insert, erase_absent, lookup-insert, arith, str_eq,
}
use ovn_fabric.Value.{Fields}
use ovn_fabric.Lifecycle.{
  RawNodeTemplate, Graph, refs, node, upsert, remove, missing_ref, validate_nodes, validate,
}

removed-upsert :
    (key : String) (ts : List RawNodeTemplate) (g : Graph)
    → All (λ t. t.id ≡ key) ts
    → remove key (upsert ts g) ≡ remove key g
unfolding remove upsert
removed-upsert key [] g own = refl
removed-upsert key (t ∷ ts) g own =
    let g' = record g { nodes = insert t.id (node g.host t) g.nodes } in
    ground (arith, own.0, removed-upsert key ts g' own.1, erase-insert key (node g.host t) g.nodes)

-- `remove(key)` after an `upsert` whose nodes all have the id `key`, on a graph that has no node
-- of that id, gives the graph back.
pub remove-upsert :
    (key : String) (ts : List RawNodeTemplate) (g : Graph)
    → All (λ t. t.id ≡ key) ts
    → lookup key g.nodes ≡ none
    → remove key (upsert ts g) ≡ g
remove-upsert key ts g own fresh = removed-upsert key ts g own ∙ absent
  where
    absent : remove key g ≡ g
    absent = unfold remove in ap (λ d. record g { nodes = d }) (erase_absent key g.nodes fresh)

-- The references `rs` all name nodes of `g`.
abbrev pub Resolve : Graph → List String → Type 0
Resolve g rs = All (λ r. lookup r g.nodes ≢ none) rs

-- Every reference of the nodes in `d` names a node of `g`.
abbrev pub ResolveAll : Graph → Dict Fields → Type 0
ResolveAll g d = All (λ (n : String × Fields). Resolve g (refs n.1)) d

abbrev pub IsClosed : Graph → Type 0
IsClosed g = ResolveAll g g.nodes

missing_ref-none : (g : Graph) (rs : List String) → (missing_ref g rs ≡ none) ↔ Resolve g rs
unfolding missing_ref
missing_ref-none g [] = (λ _. tt, λ _. refl)
missing_ref-none g (r ∷ rs) = elim (Option-cases (lookup r g.nodes)) [
  | inl absent ↦ (λ h. ground arith, λ h. absurd (h.0 absent))
  | inr (n, found) ↦ (
    λ h. (ground arith, (missing_ref-none g rs).0 (ground arith)),
    λ h. ground (arith, (missing_ref-none g rs).1 h.1),
  )
]

validate_nodes-none : (g : Graph) (d : Dict Fields) → (validate_nodes g d ≡ none) ↔ ResolveAll g d
unfolding validate_nodes
validate_nodes-none g [] = (λ _. tt, λ _. refl)
validate_nodes-none g ((k, n) ∷ d) = elim (Option-cases (missing_ref g (refs n))) [
  | inl all_found ↦ (
    λ h. ((missing_ref-none g (refs n)).0 all_found, (validate_nodes-none g d).0 (ground arith)),
    λ h. ground (arith, (validate_nodes-none g d).1 h.1),
  )
  | inr (r, missing) ↦ (λ h. ground arith, λ h. ground (arith, (missing_ref-none g (refs n)).1 h.0))
]

-- `validate` passes exactly when every `…Ref` and `…Refs` of every node names a node of the graph.
pub validate-IsClosed : (g : Graph) → (validate g ≡ none) ↔ IsClosed g
unfolding validate
validate-IsClosed g = validate_nodes-none g g.nodes

All-insert :
    (P : String × Fields → Type 0) (k : String) (v : Fields) (d : Dict Fields)
    → ((j : String) → P (j, v))
    → All P d
    → All P (insert k v d)
unfolding insert
All-insert P k v [] new h = (new k, tt)
All-insert P k v ((j, w) ∷ d) new h = elim (Bool-cases (str_eq j k)) [
  | inl same ↦ rw same (new j, h.1)
  | inr other ↦ rw other (h.0, All-insert P k v d new h.1)
]

pub lookup-upsert :
    (r : String) (ts : List RawNodeTemplate) (g : Graph)
    → lookup r g.nodes ≢ none
    → lookup r (upsert ts g).nodes ≢ none
unfolding upsert
lookup-upsert r [] g h = h
lookup-upsert r (t ∷ ts) g h =
    lookup-upsert r ts _ (ground (arith, lookup-insert r t.id (node g.host t) g.nodes))

pub Resolve-mono :
    (rs : List String) (ts : List RawNodeTemplate) (g : Graph)
    → Resolve g rs
    → Resolve (upsert ts g) rs
Resolve-mono [] ts g h = tt
Resolve-mono (r ∷ rs) ts g h = (lookup-upsert r ts g h.0, Resolve-mono rs ts g h.1)

ResolveAll-mono :
    (d : Dict Fields) (ts : List RawNodeTemplate) (g : Graph)
    → ResolveAll g d
    → ResolveAll (upsert ts g) d
ResolveAll-mono [] ts g h = tt
ResolveAll-mono (n ∷ d) ts g h = (Resolve-mono (refs n.1) ts g h.0, ResolveAll-mono d ts g h.1)

ResolveAll-upsert :
    (end : Graph) (ts : List RawNodeTemplate) (g : Graph)
    → ResolveAll end g.nodes
    → All (λ t. Resolve end (refs (node g.host t))) ts
    → ResolveAll end (upsert ts g).nodes
unfolding upsert
ResolveAll-upsert end [] g h new = h
ResolveAll-upsert end (t ∷ ts) g h new =
    ResolveAll-upsert end ts (record g { nodes = insert t.id (node g.host t) g.nodes })
      (All-insert (λ n. Resolve end (refs n.1)) t.id (node g.host t) g.nodes (λ j. new.0) h) new.1

-- A graph that passes `validate` passes it still after an `upsert` of nodes whose references name
-- nodes of the graph that results, the new ones among them.
pub upsert-IsClosed :
    (ts : List RawNodeTemplate) (g : Graph)
    → IsClosed g
    → All (λ t. Resolve (upsert ts g) (refs (node g.host t))) ts
    → IsClosed (upsert ts g)
upsert-IsClosed ts g h new =
    ResolveAll-upsert (upsert ts g) ts g (ResolveAll-mono g.nodes ts g h) new
