-- ===== src/Snapshot/Success.antt =====
-- When `graph_from_snapshot` (raw_reconciler/graph.py) makes a graph.
use ovn_fabric.Prelude.{
  String, ◌≡◌, refl, ap, List, [], ◌∷◌, Dict, lookup, insert, arith, Option-cases, inl, inr, length,
  All,
}
use ovn_fabric.Value.{Fields}
use ovn_fabric.Lifecycle.{refs}
use ovn_fabric.Snapshot.{
  RawGraph, built, by_id, set_of, add_name, links, link_refs, then_link, link_nodes, empty_sets,
  outgoing_of, sort_sets, finish, graph_from_snapshot,
}
use ovn_fabric.Snapshot.Inverse.{AllFound}

link_refs-AllFound :
    (nodes : Dict Fields) (n : String) (rs : List String) (inc : Dict (List String))
    → AllFound nodes rs
    → (end : Dict (List String)) × (link_refs nodes n rs inc ≡ links end)
unfolding link_refs
link_refs-AllFound nodes n [] inc h = (inc, refl)
link_refs-AllFound nodes n (r ∷ rs) inc h = elim (Option-cases (lookup r nodes)) [
  | inl absent ↦ absurd (h.0 absent)
  | inr (fs, found) ↦
      let (end, linked) =
        link_refs-AllFound nodes n rs (insert r (add_name n (set_of r inc)) inc) h.1 in
      (end, ground (arith, found, linked))
]

link_nodes-AllFound :
    (nodes ns : Dict Fields) (inc : Dict (List String))
    → All (λ (e : String × Fields). AllFound nodes (refs e.1)) ns
    → (end : Dict (List String)) × (link_nodes nodes ns inc ≡ links end)
unfolding link_nodes then_link
link_nodes-AllFound nodes [] inc h = (inc, refl)
link_nodes-AllFound nodes ((n, fs) ∷ ns) inc h =
    let (mid, first) = link_refs-AllFound nodes n (refs fs) inc h.0 in
    let (end, rest) = link_nodes-AllFound nodes ns mid h.1 in (end, rw first rest)

-- A snapshot with as many ids as nodes, in which each reference of each node names a node, is made
-- into a graph.
pub graph_from_snapshot-built :
    (collections : List (String × Fields))
    → length (by_id collections []) ≡ length collections
    → All
        (λ (e : String × Fields). AllFound (by_id collections []) (refs e.1))
        (by_id collections [])
    → (g : RawGraph) × (graph_from_snapshot collections ≡ built g)
unfolding graph_from_snapshot finish
graph_from_snapshot-built collections distinct found =
    let nodes = by_id collections [] in
    let (end, linked) = link_nodes-AllFound nodes nodes (empty_sets nodes) found in
    let g : RawGraph = record {
      nodes = nodes;
      outgoing = outgoing_of nodes;
      incoming = sort_sets end;
    } in
    let made : finish nodes (link_nodes nodes nodes (empty_sets nodes)) ≡ built g =
      ap (finish nodes) linked in
    (g, ground (arith, distinct, made))
