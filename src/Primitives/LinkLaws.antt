-- ===== src/Primitives/LinkLaws.antt =====
-- What the DELETE of `NetnsLinkPrimitive` (deployer/primitives_net.py) leaves of a veth pair in the
-- raw graph.
use ovn_fabric.Prelude.{
  String, ◌≡◌, ◌≢◌, refl, inl, inr, Bool-cases, none, some, List, [], ◌∷◌, ◌++◌, All, append_assoc,
  Dict, lookup, insert, lookup-insert, lookup-erase, >>=-eq-some, str_eq, arith, eq_iff,
}
use ovn_fabric.Value.{Fields}
use ovn_fabric.Lifecycle.{Primitive, RawNodeTemplate, Graph, upsert, remove, node, refs, validate}
use ovn_fabric.Lifecycle.GraphLaws.{IsClosed, Resolve, validate-IsClosed}
use ovn_fabric.Primitives.NetnsLink.{
  NetnsLink, veth, link_key, root_key, root_node, link_node, made, netns_link_primitive, port_nodes,
}

All-lookup :
    (P : Fields → Type 0) (k : String) (n : Fields) (d : Dict Fields)
    → All (λ (e : String × Fields). P e.1) d
    → lookup k d ≡ some n
    → P n
unfolding lookup
All-lookup P k n [] h e = ground arith
All-lookup P k n ((j, m) ∷ d) h e = elim (Bool-cases (str_eq j k)) [
  | inl same ↦ (let found : m ≡ n = ground arith in rw found at (h.0))
  | inr other ↦ All-lookup P k n d h.1 (ground arith)
]

-- A graph in which some node refers to a missing one is not closed.
dangling :
    (g : Graph) (k r : String) (n : Fields)
    → lookup k g.nodes ≡ some n
    → refs n ≡ ("netns:*global*" ∷ r ∷ [])
    → lookup r g.nodes ≡ none
    → ¬ IsClosed g
dangling g k r n found names absent closed =
    (rw names at (All-lookup (λ m. Resolve g (refs m)) k n g.nodes closed found)).1.0 absent

refs-root_node :
    (l : NetnsLink) (root host : String)
    → refs (node host (root_node l root)) ≡ ("netns:*global*" ∷ link_key l ∷ [])
unfolding refs node root_node
refs-root_node l root host = refl

-- The graph of a veth's last two nodes, after its DELETE.
abbrev leftover : NetnsLink → String → Graph → Graph
leftover l root g = remove (link_key l) (upsert (root_node l root ∷ link_node l ∷ []) g)

leftover-root :
    (l : NetnsLink) (root : String) (g : Graph)
    → link_key l ≢ root_key root
    → lookup (root_key root) (leftover l root g).nodes ≡ some (node g.host (root_node l root))
unfolding remove upsert root_node link_node
leftover-root l root g differ =
    let g' = record g { nodes = insert (root_key root) (node g.host (root_node l root)) g.nodes } in
    let g'' = record g' { nodes = insert (link_key l) (node g.host (link_node l)) g'.nodes } in
    ground (
      arith,
      lookup-erase (root_key root) (link_key l) g''.nodes,
      lookup-insert (root_key root) (link_key l) (node g.host (link_node l)) g'.nodes,
      lookup-insert (root_key root) (root_key root) (node g.host (root_node l root)) g.nodes,
      eq_iff (link_key l) (root_key root),
      eq_iff (root_key root) (root_key root),
    )

leftover-link :
    (l : NetnsLink) (root : String) (g : Graph)
    → lookup (link_key l) (leftover l root g).nodes ≡ none
unfolding remove
leftover-link l root g = ground (
  arith,
  lookup-erase (link_key l) (link_key l) (upsert (root_node l root ∷ link_node l ∷ []) g).nodes,
  eq_iff (link_key l) (link_key l),
)

leftover_dangles :
    (l : NetnsLink) (root : String) (g : Graph)
    → link_key l ≢ root_key root
    → ¬ IsClosed (leftover l root g)
leftover_dangles l root g differ =
    dangling (leftover l root g) (root_key root) (link_key l) (node g.host (root_node l root))
      (leftover-root l root g differ) (refs-root_node l root g.host) (leftover-link l root g)

upsert-append :
    (xs ys : List RawNodeTemplate) (g : Graph) → upsert (xs ++ ys) g ≡ upsert ys (upsert xs g)
unfolding upsert
upsert-append [] ys g = refl
upsert-append (x ∷ xs) ys g = upsert-append xs ys _

veth_nodes :
    (l : NetnsLink) (root : String) (p : Primitive)
    → l.kind ≡ veth
    → l.root_leg ≡ some root
    → netns_link_primitive l ≡ some p
    → (p.key ≡ link_key l)
      × (p.nodes ≡ port_nodes root l.bridge ++ (root_node l root ∷ link_node l ∷ []))
unfolding netns_link_primitive made
veth_nodes l root p k leg h =
    let (made_by, e, h') = >>=-eq-some (made l l.kind) _ h in
    let assoc =
      append_assoc (port_nodes root l.bridge) (root_node l root ∷ []) (link_node l ∷ []) in
    ground (arith, assoc)

-- When a veth pair is deleted, only the node of its leg in the namespace goes. The node of its root
-- leg stays and still refers to the other one, so `validate` refuses the raw graph.
pub veth_leaves_root :
    (l : NetnsLink) (root : String) (g : Graph) (p : Primitive)
    → l.kind ≡ veth
    → l.root_leg ≡ some root
    → netns_link_primitive l ≡ some p
    → link_key l ≢ root_key root
    → validate (remove p.key (upsert p.nodes g)) ≢ none
veth_leaves_root l root g p k leg h differ valid =
    let (key, nodes) = veth_nodes l root p k leg h in
    let ported = upsert (port_nodes root l.bridge) g in
    leftover_dangles l root ported differ
      (rw (key, nodes, upsert-append) at ((validate-IsClosed _).0 valid))
