-- ===== src/Kernel/Valid.antt =====
-- The raw graph of a kernel router's objects passes `validate` (deployer/ir_common.py and
-- deployer/lifecycle.py together).
use ovn_fabric.Prelude.{
  String, ◌<>◌, ◌≡◌, ◌≢◌, none, some, Option, List, [], ◌∷◌, All, lookup, insert, lookup-insert,
  arith,
}
use mathlib.Core.Path.{subst}
use ovn_fabric.Lifecycle.{RawNodeTemplate, Graph, refs, node, upsert, validate}
use ovn_fabric.Lifecycle.GraphLaws.{lookup-upsert, validate-IsClosed, upsert-IsClosed}
use ovn_fabric.Primitives.Net.{ns_arg}
use ovn_fabric.Primitives.Netns.{namespace_primitive, netns_ref}
use ovn_fabric.Primitives.Routing.{Library}
use ovn_fabric.Plan.Calls.{Outcome, done, failed, Call, Emission, for_each}
use ovn_fabric.Plan.Discipline.{Holds}
use ovn_fabric.Cluster.Nodes.{GroupNode}
use ovn_fabric.Sysdeps.Counts.{str_eq_refl}
use ovn_fabric.Kernel.Nodes.{SideNode, Owner, KernelNode}
use ovn_fabric.Kernel.Network.{groups_from}
use ovn_fabric.Kernel.Router.{
  root_bridge, device, emit_known, emit_on, emit_side, opens_keyed, emit_namespaces, emit_router,
  sides_of, context, Transit,
}
use ovn_fabric.Kernel.Closed.{
  nodes_of, Refer, Known, IsClosed, Brings, IsClosed-then_emit, Brings-first, Brings-second,
  IsClosed-Brings, IsClosed-nothing, IsClosed-given, IsClosed-declaring, Brings-declaring,
}
use ovn_fabric.Kernel.Devices.{Around}
use ovn_fabric.Kernel.Places.{
  IsInNamespace, Here, Brings-emit_device, IsClosed-emit_device, IsClosed-apps,
}

module _ (seat : String) (K : String → Type 0) (lib : Library) (ns : List KernelNode) where
  module _ (router host netns : String) (t : Transit) where
    IsClosed-emit_known :
        (dev : String) (s : SideNode) (groups : List GroupNode)
        → All IsInNamespace s.apps
        → IsClosed seat K (Around K ns netns) (emit_known lib ns router host netns dev t s groups)
    unfolding emit_known context
    IsClosed-emit_known dev s groups h =
        let c = context router host netns dev t s groups in
        IsClosed-Brings seat K (Around K ns netns) (K ("link:" <> netns <> "|" <> dev)) _
          (Brings-first seat K _ _ _ (Brings-emit_device seat K lib ns c s groups))
          (IsClosed-then_emit seat K (Here seat K lib ns c) _ _
            (IsClosed-emit_device seat K lib ns c s groups)
            (IsClosed-apps seat K lib ns c s.apps h))

    IsClosed-emit_on :
        (s : SideNode) (dev : Option String)
        → All IsInNamespace s.apps
        → IsClosed seat K (Around K ns netns) (emit_on lib ns router host netns t s dev)
    unfolding emit_on
    IsClosed-emit_on s none h = IsClosed-nothing seat K _
    IsClosed-emit_on s (some dev) h =
        IsClosed-given seat K _ _ (groups_from s.security_groups ns)
          (λ groups. IsClosed-emit_known dev s groups h)

    IsClosed-sides :
        (ss : List SideNode)
        → All (λ s. All IsInNamespace s.apps) ss
        → IsClosed seat K (Around K ns netns) (for_each ss (emit_side lib ns router host netns t))
    unfolding for_each emit_side
    IsClosed-sides [] h = IsClosed-nothing seat K _
    IsClosed-sides (s ∷ ss) h =
        IsClosed-then_emit seat K _ _ _ (IsClosed-emit_on s (device s.side s.ifaces) h.0)
          (IsClosed-sides ss h.1)

  abbrev Bridges : Type 0
  Bridges = (leg bridge : String) → root_bridge leg ns ≡ some bridge → K ("ovs.bridge:" <> bridge)

  IsClosed-emit_namespaces :
      (o : Owner) (host netns : String) → IsClosed seat K Unit (emit_namespaces o host netns)
  unfolding emit_namespaces opens_keyed nodes_of namespace_primitive refs node
  IsClosed-emit_namespaces o host netns n =
      IsClosed-then_emit seat K Unit _ _
        (IsClosed-then_emit seat K Unit _ _ (λ m p known. tt)
          (IsClosed-declaring seat K Unit n _ (λ p known. (tt, tt))))
        (IsClosed-declaring seat K Unit n _ (λ p known. (tt, tt))) n

  Brings-root :
      (o : Owner) (host netns : String)
      → Brings seat K (K "netns:*global*") (emit_namespaces o host netns)
  unfolding emit_namespaces namespace_primitive netns_ref ns_arg
  Brings-root o host netns n =
      Brings-first seat K _ _ _
        (Brings-second seat K _ _ _ (Brings-declaring seat K _ n _ (λ known. known.0))) n

  Brings-named :
      (o : Owner) (host netns : String)
      → Brings seat K (K ("netns:" <> netns)) (emit_namespaces o host netns)
  unfolding emit_namespaces namespace_primitive netns_ref ns_arg
  Brings-named o host netns n =
      Brings-second seat K _ _ _ (Brings-declaring seat K _ n _ (λ known. known.0)) n

  IsClosed-weaker :
      (P Q : Type 0) (e : Emission) → (Q → P) → IsClosed seat K P e → IsClosed seat K Q e
  IsClosed-weaker P Q e f h n = go (e n) (h n)
    where
      go :
          (o : Outcome (List Call))
          → Holds (λ cs. P → Known seat K (nodes_of cs) → Refer seat K (nodes_of cs)) o
          → Holds (λ cs. Q → Known seat K (nodes_of cs) → Refer seat K (nodes_of cs)) o
      go (done cs) j = λ x. j (f x)
      go (failed x) j = tt

  IsClosed-emit_router :
      (o : Owner) (netns : String)
      → All (λ s. All IsInNamespace s.apps) (sides_of o.name ns)
      → IsClosed seat K Bridges (emit_router lib ns o netns)
  unfolding emit_router
  IsClosed-emit_router o netns h =
      IsClosed-Brings seat K Bridges (K "netns:*global*") _
        (Brings-first seat K _ _ _ (Brings-root o _ netns))
        (IsClosed-Brings seat K (Bridges × K "netns:*global*") (K ("netns:" <> netns)) _
          (Brings-first seat K _ _ _ (Brings-named o _ netns))
          (IsClosed-then_emit seat K _ _ _
            (IsClosed-weaker Unit _ _ (λ x. tt) (IsClosed-emit_namespaces o _ netns))
            (IsClosed-weaker (Around K ns netns) _ _
              (λ x. record { named = x.1; root = x.0.1; bridges = x.0.0 })
              (IsClosed-sides o.name _ netns _ (sides_of o.name ns) h))))

-- The nodes of an upsert are there after it.
upsert-Known :
    (ts : List RawNodeTemplate) (g : Graph) → All (λ t. lookup t.id (upsert ts g).nodes ≢ none) ts
unfolding upsert
upsert-Known [] g = tt
upsert-Known (t ∷ ts) g =
    let fields = node g.host t in
    let g' = record g { nodes = insert t.id fields g.nodes } in
    (
      lookup-upsert t.id ts g'
          (ground (arith, lookup-insert t.id t.id fields g.nodes, str_eq_refl t.id)),
      upsert-Known ts g',
    )

-- When a kernel router whose apps all run in its namespace can be declared, and its objects are put
-- on a raw graph that passes `validate` and has the bridges of the veth pairs, the raw graph that is
-- left passes `validate`: every reference of a node names a node.
pub emit_router-valid :
    (lib : Library) (ns : List KernelNode) (o : Owner) (netns : String) (calls : List Call)
    (g : Graph)
    → All (λ s. All IsInNamespace s.apps) (sides_of o.name ns)
    → emit_router lib ns o netns 0 ≡ done calls
    → ((leg bridge : String)
        → root_bridge leg ns ≡ some bridge
        → lookup ("ovs.bridge:" <> bridge) g.nodes ≢ none)
    → validate g ≡ none
    → validate (upsert (nodes_of calls) g) ≡ none
emit_router-valid lib ns o netns calls g inside e bridges valid = (validate-IsClosed after).1 (
    upsert-IsClosed (nodes_of calls) g ((validate-IsClosed g).0 valid) (
      closed (λ leg bridge found. lookup-upsert _ (nodes_of calls) g (bridges leg bridge found))
        (upsert-Known (nodes_of calls) g)))
  where
    after : Graph
    after = upsert (nodes_of calls) g

    There : String → Type 0
    There k = lookup k after.nodes ≢ none

    closed :
        Bridges g.host There lib ns
        → Known g.host There (nodes_of calls)
        → Refer g.host There (nodes_of calls)
    closed =
        subst
          (Holds (λ cs.
            Bridges g.host There lib ns
            → Known g.host There (nodes_of cs)
            → Refer g.host There (nodes_of cs)))
          e (IsClosed-emit_router g.host There lib ns o netns inside 0)
