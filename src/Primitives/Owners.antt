-- ===== src/Primitives/Owners.antt =====
-- The references of the raw node of an OVN object (deployer/primitives_ovn.py, `lsRef` and `lrRef`),
-- as keys.
use ovn_fabric.Prelude.{String, ◌≡◌, refl, none, List, [], ◌∷◌, All}
use ovn_fabric.Lifecycle.{Graph, RawNodeTemplate, upsert, node, refs, validate, Primitive}
use ovn_fabric.Lifecycle.GraphLaws.{Resolve, validate-IsClosed, upsert-IsClosed, Resolve-mono}
use ovn_fabric.Primitives.Ovn.{OvnObject, ovn_key, ovn_primitive}
use ovn_fabric.Primitives.Build.{text_list, dict_of}

-- The keys of the switch or router that the object's node refers to; `refs-owners` compares them
-- with the references of the node itself.
unfoldable pub ovn_owners : OvnObject → List String
ovn_owners (OvnObject.lsp switch name type addresses options) = ovn_key (OvnObject.ls switch) ∷ []
ovn_owners (OvnObject.lrp router name mac networks chassis ra) =
    ovn_key (OvnObject.lr router [] []) ∷ []
ovn_owners (OvnObject.route router prefix nexthop) = ovn_key (OvnObject.lr router [] []) ∷ []
ovn_owners (OvnObject.nat router type ext log reset) = ovn_key (OvnObject.lr router [] []) ∷ []
ovn_owners (OvnObject.acl switch direction priority match action) =
    ovn_key (OvnObject.ls switch) ∷ []
ovn_owners _ = []

abbrev Names : String → List String → Primitive → Type 0
Names host keys p = All (λ t. refs (node host t) ≡ keys) p.nodes

refs-owners : (host : String) (x : OvnObject) → Names host (ovn_owners x) (ovn_primitive x)
unfolding ovn_primitive ovn_owners refs node text_list dict_of ovn_key
refs-owners host (OvnObject.ls name) = (refl, tt)
refs-owners host _ = (refl, tt)

Resolve-owners :
    (g g' : Graph) (keys : List String) (ts : List RawNodeTemplate)
    → Resolve g' keys
    → All (λ t. refs (node g.host t) ≡ keys) ts
    → All (λ t. Resolve g' (refs (node g.host t))) ts
Resolve-owners g g' keys [] h named = tt
Resolve-owners g g' keys (t ∷ ts) h named = (rw (named.0) h, Resolve-owners g g' keys ts h named.1)

-- A raw graph that passes `validate`, and that has the nodes that an OVN object's node refers to,
-- passes it still when that node is added to it.
pub validate-upsert_ovn :
    (x : OvnObject) (g : Graph)
    → validate g ≡ none
    → Resolve g (ovn_owners x)
    → validate (upsert (ovn_primitive x).nodes g) ≡ none
validate-upsert_ovn x g valid owned =
    let ts = (ovn_primitive x).nodes in
    (validate-IsClosed (upsert ts g)).1 (
      upsert-IsClosed ts g ((validate-IsClosed g).0 valid) (
        Resolve-owners g (upsert ts g) (ovn_owners x) ts (Resolve-mono (ovn_owners x) ts g owned)
          (refs-owners g.host x)))
