-- ===== src/Lifecycle/RawGraph.antt =====
-- deployer/lifecycle.py: `RawNodeTemplate`, `_refs` and `RawGraphBuilder`, the raw graph that
-- the operations of a run reflect themselves in.
use ovn_fabric.Prelude.{
  String, Option, none, some, List, [], ◌∷◌, ◌++◌, Dict, lookup, insert, erase, ends_with,
  if◌then◌else◌,
}
use ovn_fabric.Value.{Value, text, arr, Items, nil, cons, Fields, end, field, merge}

pub record RawNodeTemplate : Type 0 where
  pub id : String
  pub kind : String
  pub fields : Fields

pub record Graph : Type 0 where
  pub host : String
  pub nodes : Dict Fields

-- `out.extend(item for item in value if isinstance(item, str))`
unfoldable pub text_items : Items → List String
text_items nil = []
text_items (cons (text s) xs) = s ∷ text_items xs
text_items (cons _ xs) = text_items xs

ref_of : Value → List String
ref_of (text s) = s ∷ []
ref_of _ = []

refs_of : Value → List String
unfolding text_items
refs_of (arr xs) = text_items xs
refs_of _ = []

field_refs : String → Value → List String
unfolding ref_of refs_of ends_with
field_refs k v =
    if ends_with k "Ref" then ref_of v else if ends_with k "Refs" then refs_of v else []

-- `_refs`
unfoldable pub refs : Fields → List String
unfolding field_refs
refs end = []
refs (field k v fs) = field_refs k v ++ refs fs

-- The node of a template: its fields cover `id`, `kind` and `host`.
unfoldable pub node : String → RawNodeTemplate → Fields
unfolding merge
node host t =
    merge (field "id" (text t.id) (field "kind" (text t.kind) (field "host" (text host) end)))
      t.fields

-- `upsert` (`runtime` is given nowhere in the program)
unfoldable pub upsert : List RawNodeTemplate → Graph → Graph
unfolding node insert
upsert [] g = g
upsert (t ∷ ts) g = upsert ts (record g { nodes = insert t.id (node g.host t) g.nodes })

unfoldable pub remove : String → Graph → Graph
unfolding erase
remove key g = record g { nodes = erase key g.nodes }

-- The first reference that names no node of `g`.
unfoldable pub missing_ref : Graph → List String → Option String
missing_ref g [] = none
missing_ref g (r ∷ rs) = elim (lookup r g.nodes) [ none ↦ some r | some _ ↦ missing_ref g rs ]

unfoldable pub validate_nodes : Graph → List (String × Fields) → Option String
unfolding missing_ref refs
validate_nodes g [] = none
validate_nodes g ((k, n) ∷ ns) = elim (missing_ref g (refs n)) [
  | none ↦ validate_nodes g ns
  | some r ↦ some r
]

-- `validate`: none when it passes, else the missing node that its `ValueError` names.
unfoldable pub validate : Graph → Option String
unfolding validate_nodes
validate g = validate_nodes g g.nodes
