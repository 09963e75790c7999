-- ===== src/Snapshot/Inverse.antt =====
-- What `graph_from_snapshot` (raw_reconciler/graph.py) returns: two indexes of the references that
-- are each other's inverse.
use ovn_fabric.Prelude.{
  contains-sort_names, String, ◌≡◌, refl, sym, ap, ◌∙◌, Bool, ◌&&◌, ◌||◌, Option, none, some, List,
  [], ◌∷◌, any, contains, str_eq, Dict, lookup, insert, lookup-insert, arith, eq_iff, Bool-cases,
  Option-cases, inl, inr, length, ◌==◌, All, ◌≢◌,
}
use ovn_fabric.Value.{Fields}
use ovn_fabric.Lifecycle.{refs}
use ovn_fabric.Snapshot.{
  RawGraph, built, by_id, set_of, add_name, Links, links, unresolved, link_refs, then_link,
  link_nodes, empty_sets, sort_sets, outgoing_of, finish, graph_from_snapshot,
}

contains-add_name :
    (m n : String) (s : List String) → contains (add_name n s) m ≡ (contains s m || str_eq n m)
unfolding add_name
contains-add_name m n s = elim (Bool-cases (str_eq n m)) [
  | inl same ↦ (let e : n ≡ m = (eq_iff n m).0 same in ground (arith, ap (contains s) e))
  | inr other ↦ ground arith
]

set_of-sort_sets :
    (k m : String) (d : Dict (List String))
    → contains (set_of k (sort_sets d)) m ≡ contains (set_of k d) m
unfolding set_of sort_sets lookup
set_of-sort_sets k m [] = refl
set_of-sort_sets k m ((j, s) ∷ d) = ground (arith, contains-sort_names m s, set_of-sort_sets k m d)

set_of-empty_sets : (k : String) (d : Dict Fields) → set_of k (empty_sets d) ≡ []
unfolding set_of empty_sets lookup
set_of-empty_sets k [] = refl
set_of-empty_sets k ((j, fs) ∷ d) = ground (arith, set_of-empty_sets k d)

set_of-insert :
    (k r m n : String) (inc : Dict (List String))
    → contains (set_of k (insert r (add_name n (set_of r inc)) inc)) m
      ≡ (contains (set_of k inc) m || (str_eq n m && str_eq r k))
unfolding set_of
set_of-insert k r m n inc = elim (Bool-cases (str_eq r k)) [
  | inl same ↦
      (let e : r ≡ k = (eq_iff r k).0 same in
        ground (
          arith,
          lookup-insert k r (add_name n (set_of r inc)) inc,
          contains-add_name m n (set_of r inc),
          ap (λ i. lookup i inc) e,
        ))
  | inr other ↦ ground (arith, lookup-insert k r (add_name n (set_of r inc)) inc)
]

-- A node's fields refer to `k`, and the node is `m`.
abbrev pub refers : String → String → String × Fields → Bool
refers m k e = str_eq e.0 m && contains (refs e.1) k

abbrev pub AllFound : Dict Fields → List String → Type 0
AllFound nodes rs = All (λ r. lookup r nodes ≢ none) rs

link_refs-links :
    (nodes : Dict Fields) (n : String) (rs : List String) (inc end : Dict (List String))
    → link_refs nodes n rs inc ≡ links end
    → AllFound nodes rs
      × ((k m : String)
          → contains (set_of k end) m
            ≡ (contains (set_of k inc) m || (str_eq n m && contains rs k)))
unfolding link_refs
link_refs-links nodes n [] inc end h =
    let same : inc ≡ end = ground arith in
    (tt, λ k m. sym (ap (λ d. contains (set_of k d) m) same) ∙ ground arith)
link_refs-links nodes n (r ∷ rs) inc end h = elim (Option-cases (lookup r nodes)) [
  | inl absent ↦ ground arith
  | inr (fs, found) ↦
      let (rest, sets) =
        link_refs-links nodes n rs (insert r (add_name n (set_of r inc)) inc) end (ground arith) in
      ((ground arith, rest), λ k m. ground (arith, sets k m, set_of-insert k r m n inc))
]

link_nodes-links :
    (nodes ns : Dict Fields) (inc end : Dict (List String))
    → link_nodes nodes ns inc ≡ links end
    → All (λ (e : String × Fields). AllFound nodes (refs e.1)) ns
      × ((k m : String)
          → contains (set_of k end) m ≡ (contains (set_of k inc) m || any (refers m k) ns))
unfolding link_nodes then_link
link_nodes-links nodes [] inc end h =
    let same : inc ≡ end = ground arith in
    (tt, λ k m. sym (ap (λ d. contains (set_of k d) m) same) ∙ ground arith)
link_nodes-links nodes ((n, fs) ∷ ns) inc end h =
    go (link_refs nodes n (refs fs) inc) refl h (λ mid. link_nodes-links nodes ns mid end)
  where
    go :
        (l : Links)
        → link_refs nodes n (refs fs) inc ≡ l
        → then_link l (λ d. link_nodes nodes ns d) ≡ links end
        → ((mid : Dict (List String))
            → link_nodes nodes ns mid ≡ links end
            → All (λ (e : String × Fields). AllFound nodes (refs e.1)) ns
              × ((k m : String)
                  → contains (set_of k end) m ≡ (contains (set_of k mid) m || any (refers m k) ns)))
        → All (λ (e : String × Fields). AllFound nodes (refs e.1)) ((n, fs) ∷ ns)
          × ((k m : String)
              → contains (set_of k end) m
                ≡ (contains (set_of k inc) m || any (refers m k) ((n, fs) ∷ ns)))
    go (unresolved a b) e g rest = cc
    go (links mid) e g rest =
        let (found, sets) = link_refs-links nodes n (refs fs) inc mid e in
        let (others, after) = rest mid g in
        ((found, others), λ k m. ground (arith, sets k m, after k m))

lookup-outgoing_of :
    (m : String) (d : Dict Fields)
    → lookup m (outgoing_of d)
      ≡ elim (lookup m d) as (λ _. Option (List String)) [ none ↦ none | some fs ↦ some (refs fs) ]
unfolding lookup outgoing_of
lookup-outgoing_of m [] = refl
lookup-outgoing_of m ((k, fs) ∷ d) = ground (arith, lookup-outgoing_of m d)

-- A graph whose indexes are right: each reference names a node; the outgoing references of a node
-- are those of its fields; and a node is in another's set of incoming ones exactly when it has a
-- reference to it.
pub record IsIndexed (g : RawGraph) : Type 0 where
  pub resolved : All (λ (e : String × Fields). AllFound g.nodes (refs e.1)) g.nodes
  pub outgoing :
      (m : String)
      → lookup m g.outgoing ≡ elim (lookup m g.nodes) as (λ _. Option (List String)) [
        | none ↦ none
        | some fs ↦ some (refs fs)
      ]
  pub incoming : (k m : String) → contains (set_of k g.incoming) m ≡ any (refers m k) g.nodes

finish-built :
    (nodes : Dict Fields) (g : RawGraph)
    → finish nodes (link_nodes nodes nodes (empty_sets nodes)) ≡ built g
    → IsIndexed g × (g.nodes ≡ nodes)
unfolding finish
finish-built nodes g h = go (link_nodes nodes nodes (empty_sets nodes)) refl h
  where
    go :
        (l : Links)
        → link_nodes nodes nodes (empty_sets nodes) ≡ l
        → finish nodes l ≡ built g
        → IsIndexed g × (g.nodes ≡ nodes)
    go (unresolved n r) e k = cc
    go (links inc) e k =
        let (found, sets) = link_nodes-links nodes nodes (empty_sets nodes) inc e in
        let made : RawGraph = record {
          nodes = nodes;
          outgoing = outgoing_of nodes;
          incoming = sort_sets inc;
        } in
        let same : made ≡ g = ground arith in
        let right : IsIndexed made = record {
          resolved = found;
          outgoing = λ m. lookup-outgoing_of m nodes;
          incoming = λ i m.
              set_of-sort_sets i m inc
              ∙ sets i m
              ∙ ap (λ s. contains s m || any (refers m i) nodes) (set_of-empty_sets i nodes);
        } in
        (rw same at right, sym (ap (λ q. q.nodes) same))

-- A graph that is made of a snapshot has right indexes, and its nodes are those of the snapshot by
-- their ids, as many as the snapshot has.
pub graph_from_snapshot-IsIndexed :
    (collections : List (String × Fields)) (g : RawGraph)
    → graph_from_snapshot collections ≡ built g
    → IsIndexed g × (g.nodes ≡ by_id collections []) × (length g.nodes ≡ length collections)
unfolding graph_from_snapshot
graph_from_snapshot-IsIndexed collections g h =
    let nodes = by_id collections [] in
    elim (Bool-cases (length nodes == length collections)) [
      | inl whole ↦
          let (right, same) = finish-built nodes g (ground (arith, h, whole)) in
          (right, same, ap length same ∙ ground (arith, whole))
      | inr short ↦ ground (arith, h, short)
    ]
