-- ===== src/Tests/Snapshots.antt =====
-- A raw snapshot of a namespace and its link.
use ovn_fabric.Prelude.{String, ◌≡◌, refl, List, [], ◌∷◌, length, lookup, insert, arith}
use ovn_fabric.Value.{text, arr, Fields, end, field, nil, cons}
use ovn_fabric.Lifecycle.{refs}
use ovn_fabric.Snapshot.{
  RawGraph, Built, built, graph_from_snapshot, by_id, link_nodes, link_refs, then_link, finish,
}
use ovn_fabric.Snapshot.Inverse.{IsIndexed, graph_from_snapshot-IsIndexed}
use ovn_fabric.Snapshot.Success.{graph_from_snapshot-built}

abbrev snapshot : List (String × Fields)
snapshot =
    ("netns:router", field "linkRefs" (arr (cons (text "link:router|lan") nil)) end)
    ∷ ("link:router|lan", field "netnsRef" (text "netns:router") end)
    ∷ []

abbrev graph_of : Built → RawGraph
graph_of (built g) = g
graph_of _ = record { nodes = []; outgoing = []; incoming = [] }

abbrev graph : RawGraph
graph = graph_of (graph_from_snapshot snapshot)

graph_from_snapshot-IsIndexed_example :
    IsIndexed graph × (graph.nodes ≡ by_id snapshot []) × (length graph.nodes ≡ length snapshot)
unfolding graph_from_snapshot insert finish link_nodes then_link link_refs refs lookup
graph_from_snapshot-IsIndexed_example = graph_from_snapshot-IsIndexed snapshot graph refl

graph_from_snapshot-built_example : (g : RawGraph) × (graph_from_snapshot snapshot ≡ built g)
unfolding by_id insert lookup refs
graph_from_snapshot-built_example =
    graph_from_snapshot-built snapshot refl
      ((λ absent. ground arith, tt), ((λ absent. ground arith, tt), tt))
