-- ===== src/Kernel/Places.antt =====
-- The apps of a kernel router's side, and the side's device (deployer/ir_common.py): what their raw
-- nodes refer to.
use ovn_fabric.Prelude.{ℕ, String, ◌<>◌, none, some, List, [], ◌∷◌, All}
use ovn_fabric.Lifecycle.{Operation, refs, node, directory_node, chmod_node}
use ovn_fabric.Primitives.Net.{net_primitive}
use ovn_fabric.Primitives.Routing.{Library, sysctl_file_primitive}
use ovn_fabric.Plan.Calls.{Emission, for_each}
use ovn_fabric.Cluster.Nodes.{GroupNode}
use ovn_fabric.Cluster.Valid.{op_nodes}
use ovn_fabric.Kernel.Nodes.{
  Side, left, right, SideNode, KernelNode, KernelApp, dhclient, owning, wired, wireguard, zerotier,
  unsupported,
}
use ovn_fabric.Kernel.Container.{SideContext, doing}
use ovn_fabric.Kernel.Apps.{
  own_unit, emit_masq, emit_tunnel, emit_dhclient, emit_app, masq_families,
}
use ovn_fabric.Kernel.Router.{emit_accept, emit_device}
use ovn_fabric.Kernel.Closed.{
  Refer, IsClosed, Brings, IsClosed-then_emit, Brings-first, Brings-second, IsClosed-nothing,
  IsClosed-refuses, IsClosed-for_each, IsClosed-given, IsClosed-doing, IsClosed-declaring,
}
use ovn_fabric.Kernel.Devices.{
  Around, IsClosed-raised, Brings-raised, IsClosed-opens_unit, IsClosed-side_network,
  link-AreLinked,
}

-- No container owns the interfaces of a side.
abbrev pub IsInNamespace : KernelApp → Type 0
IsInNamespace (owning app) = ⊥
IsInNamespace _ = Unit

-- What is there for a side: what is around, and its device.
abbrev pub Place : (String → Type 0) → List KernelNode → (netns dev : String) → Type 0
Place K ns netns dev = Around K ns netns × K ("link:" <> netns <> "|" <> dev)

module _ (seat : String) (K : String → Type 0) (lib : Library) (ns : List KernelNode) where
  IsClosed-emit_accept :
      (host netns dev : String) (on : ℕ) (s : Side)
      → IsClosed seat K (Place K ns netns dev) (emit_accept lib host netns dev on s)
  unfolding emit_accept sysctl_file_primitive refs node
  IsClosed-emit_accept host netns dev on left = IsClosed-nothing seat K _
  IsClosed-emit_accept host netns dev on right =
      IsClosed-declaring seat K _ on _ (λ p known. ((p.0.named, tt), tt))

  module _ (c : SideContext) where
    abbrev pub Here : Type 0
    Here = Place K ns c.netns c.dev

    pub IsClosed-emit_device :
        (s : SideNode) (groups : List GroupNode)
        → IsClosed seat K Here (emit_device lib ns c s groups)
    unfolding emit_device
    IsClosed-emit_device s groups n =
        IsClosed-then_emit seat K Here _ _
          (IsClosed-then_emit seat K Here _ _
            (IsClosed-then_emit seat K Here _ _ (IsClosed-opens_unit seat K Here _ _) (
              IsClosed-raised seat K Here n _ (λ p e h known.
                (link-AreLinked seat K ns c.host c.netns c.dev s.ifaces p e known).0 h.0)))
            (IsClosed-emit_accept c.host c.netns c.dev n s.side))
          (IsClosed-side_network seat K Here c.host c.netns (λ h. h.0.named) lib c.dev n groups
            s.ipaddrs s.routes (λ h. h.1))
          n

    pub Brings-emit_device :
        (s : SideNode) (groups : List GroupNode)
        → Brings seat K (K ("link:" <> c.netns <> "|" <> c.dev)) (emit_device lib ns c s groups)
    unfolding emit_device
    Brings-emit_device s groups n =
        Brings-first seat K _ _ _
          (Brings-first seat K _ _ _ (
            Brings-second seat K _ _ _ (
              Brings-raised seat K _ n _ (λ p e known.
                (link-AreLinked seat K ns c.host c.netns c.dev s.ifaces p e known).1))))
          n

    IsClosed-own_unit :
        (subject : String) (e : ℕ → Emission)
        → ((n : ℕ) → IsClosed seat K Here (e n))
        → IsClosed seat K Here (own_unit subject e)
    unfolding own_unit
    IsClosed-own_unit subject e h n =
        IsClosed-then_emit seat K Here _ _ (IsClosed-opens_unit seat K Here _ _) (h n) n

    IsClosed-quiet :
        (on : ℕ) (op : Operation) → Refer seat K (op_nodes op) → IsClosed seat K Here (doing on op)
    IsClosed-quiet on op h = IsClosed-doing seat K Here on op (λ p known. h)

    IsClosed-emit_app :
        (app : KernelApp) → IsInNamespace app → IsClosed seat K Here (emit_app lib c ns app)
    unfolding emit_app emit_dhclient emit_tunnel emit_masq op_nodes net_primitive refs node
        directory_node chmod_node
    IsClosed-emit_app dhclient h = IsClosed-own_unit _ (emit_dhclient lib c) (λ n.
        IsClosed-then_emit seat K Here _ _ (IsClosed-quiet n _ (tt, tt))
          (IsClosed-declaring seat K Here n _ (λ p known. ((p.0.named, (p.1, tt)), tt))))
    IsClosed-emit_app (owning app) h = elim h [ ]
    IsClosed-emit_app (wired none) h = IsClosed-refuses seat K Here _
    IsClosed-emit_app (wired (some ip)) h = IsClosed-refuses seat K Here _
    IsClosed-emit_app (wireguard none config groups) h = IsClosed-refuses seat K Here _
    IsClosed-emit_app (wireguard (some iface) none groups) h = IsClosed-refuses seat K Here _
    IsClosed-emit_app (wireguard (some iface) (some config) groups) h =
        IsClosed-own_unit _ (emit_tunnel lib c iface config groups ns) (λ n.
          IsClosed-then_emit seat K Here _ _
            (IsClosed-then_emit seat K Here _ _
              (IsClosed-then_emit seat K Here _ _
                (IsClosed-then_emit seat K Here _ _ (IsClosed-quiet n _ (tt, tt))
                  (IsClosed-quiet n _ tt))
                (IsClosed-quiet n _ (tt, tt)))
              (IsClosed-declaring seat K Here n _ (λ p known. ((p.0.named, tt), tt))))
            (IsClosed-given seat K Here _ (masq_families groups ns) (λ families.
              IsClosed-for_each seat K Here _ families
                (λ family. IsClosed-declaring seat K Here n _ (λ p known. ((p.0.named, tt), tt))))))
    IsClosed-emit_app (zerotier none dir groups) h = IsClosed-refuses seat K Here _
    IsClosed-emit_app (zerotier (some id) none groups) h = IsClosed-refuses seat K Here _
    IsClosed-emit_app (zerotier (some id) (some dir) groups) h =
        IsClosed-given seat K Here _ (masq_families groups ns)
          (λ families. IsClosed-refuses seat K Here _)
    IsClosed-emit_app unsupported h = IsClosed-nothing seat K Here

    pub IsClosed-apps :
        (apps : List KernelApp)
        → All IsInNamespace apps
        → IsClosed seat K Here (for_each apps (emit_app lib c ns))
    unfolding for_each
    IsClosed-apps [] h = IsClosed-nothing seat K Here
    IsClosed-apps (app ∷ apps) h =
        IsClosed-then_emit seat K Here _ _ (IsClosed-emit_app app h.0) (IsClosed-apps apps h.1)
