-- ===== src/Snapshot.antt =====
-- raw_reconciler/graph.py, `graph_from_snapshot`: a graph from the nodes of a raw snapshot, with
-- the references of each node and the nodes that refer to it. The snapshot's hydration is taken as
-- done: a node is its id with its fields. `_ref_fields` reads them by the same rule as the raw graph
-- of a run does (`refs`).
pub mod Inverse
pub mod Success
use ovn_fabric.Prelude.{
  ℕ, String, Bool, Option, none, some, List, [], ◌∷◌, length, contains, ◌==◌, sort_names, Dict,
  lookup, insert, map, if◌then◌else◌,
}
use ovn_fabric.Value.{Fields}
use ovn_fabric.Lifecycle.{refs}

-- `RawGraph`, less its host and time.
pub record RawGraph : Type 0 where
  pub nodes : Dict Fields
  pub outgoing : Dict (List String)
  pub incoming : Dict (List String)

-- What comes of a snapshot: a `RawGraphError`, or the graph.
pub data Built : Type 0 where
  duplicate_id : Built
  missing_node : (node ref : String) → Built
  built : RawGraph → Built

-- `{node.id: node for node in snapshot.collections}`
unfoldable pub by_id : List (String × Fields) → Dict Fields → Dict Fields
by_id [] d = d
by_id ((k, fs) ∷ xs) d = by_id xs (insert k fs d)

-- The set under a key, empty where there is none.
unfoldable pub set_of : String → Dict (List String) → List String
set_of k d = elim (lookup k d) [ none ↦ [] | some s ↦ s ]

-- `s.add(name)`
unfoldable pub add_name : String → List String → List String
add_name name s = if contains s name then s else name ∷ s

-- The sets of referring nodes as they grow, or the reference that names no node.
pub data Links : Type 0 where
  unresolved : (node ref : String) → Links
  links : Dict (List String) → Links

-- The references of one node.
unfoldable pub link_refs : Dict Fields → String → List String → Dict (List String) → Links
link_refs nodes n [] inc = links inc
link_refs nodes n (r ∷ rs) inc = elim (lookup r nodes) [
  | none ↦ unresolved n r
  | some _ ↦ link_refs nodes n rs (insert r (add_name n (set_of r inc)) inc)
]

unfoldable pub then_link : Links → (Dict (List String) → Links) → Links
then_link (unresolved n r) f = unresolved n r
then_link (links inc) f = f inc

unfoldable pub link_nodes : Dict Fields → Dict Fields → Dict (List String) → Links
link_nodes nodes [] inc = links inc
link_nodes nodes ((n, fs) ∷ ns) inc =
    then_link (link_refs nodes n (refs fs) inc) (λ d. link_nodes nodes ns d)

unfoldable pub empty_sets : Dict Fields → Dict (List String)
empty_sets [] = []
empty_sets ((k, fs) ∷ d) = (k, []) ∷ empty_sets d

unfoldable pub sort_sets : Dict (List String) → Dict (List String)
sort_sets [] = []
sort_sets ((k, s) ∷ d) = (k, sort_names s) ∷ sort_sets d

unfoldable pub outgoing_of : Dict Fields → Dict (List String)
outgoing_of [] = []
outgoing_of ((k, fs) ∷ d) = (k, refs fs) ∷ outgoing_of d

unfoldable pub finish : Dict Fields → Links → Built
finish nodes (unresolved n r) = missing_node n r
finish nodes (links inc) =
    built (record { nodes = nodes; outgoing = outgoing_of nodes; incoming = sort_sets inc })

unfoldable pub graph_from_snapshot : List (String × Fields) → Built
unfolding by_id
graph_from_snapshot collections =
    let nodes = by_id collections [] in
    if length nodes == length collections
    then finish nodes (link_nodes nodes nodes (empty_sets nodes))
    else duplicate_id
