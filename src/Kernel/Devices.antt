-- ===== src/Kernel/Devices.antt =====
-- The devices, addresses, routes and rules of a kernel router (deployer/ir_common.py): what their
-- raw nodes refer to.
use ovn_fabric.Prelude.{
  ℕ, String, ◌<>◌, ◌≡◌, refl, sym, none, some, Option, inl, inr, >>=-eq-some, List, [], ◌∷◌, ◌++◌,
  map, All, str_eq, Bool-cases,
}
use mathlib.Core.Path.{subst}
use ovn_fabric.Lifecycle.{Primitive, RawNodeTemplate, refs, node}
use ovn_fabric.Primitives.Net.{net_primitive, ns_arg}
use ovn_fabric.Primitives.Netns.{netns_ref, link_ref}
use ovn_fabric.Primitives.NetnsLink.{
  NetnsLink, netns_link_primitive, made, root_node, link_node, port_nodes, link_key, root_key,
  final_name, or_else,
}
use ovn_fabric.Primitives.Routing.{Library, addr_primitive, route_primitive}
use ovn_fabric.Plan.Calls.{Outcome, done, failed, ◌>>=◌, unit, refuses, given}
use ovn_fabric.Plan.Discipline.{Holds}
use ovn_fabric.Cluster.Nodes.{GroupNode}
use ovn_fabric.Cluster.Valid.{op_nodes}
use ovn_fabric.Kernel.Nodes.{KernelIface, vlan, physical, veth, other_iface, SideRoute, KernelNode}
use ovn_fabric.Kernel.Filters.{Row, group_rows}
use ovn_fabric.Kernel.Network.{declaring, raised_by, rule_call, emit_group, side_network}
use ovn_fabric.Kernel.Container.{opens_unit}
use ovn_fabric.Kernel.Router.{root_bridge, side_link, plain_link}
use ovn_fabric.Kernel.Closed.{
  nodes_of, Refer, Known, IsClosed, Brings, IsClosed-then_emit, IsClosed-refuses, IsClosed-for_each,
  IsClosed-declaring, Brings-declaring,
}

of_some : (F : Primitive → Type 0) (x p : Primitive) → some x ≡ some p → F x → F p
of_some F x p e h = subst holds e h
  where
    holds : Option Primitive → Type 0
    holds none = Unit
    holds (some y) = F y

module _ (seat : String) (K : String → Type 0) where
  pub IsClosed-raised :
      (P : Type 0) (on : ℕ) (o : Option Primitive)
      → ((p : Primitive) → o ≡ some p → P → Known seat K p.nodes → Refer seat K p.nodes)
      → IsClosed seat K P (given (raised_by o) (declaring on))
  unfolding raised_by given
  IsClosed-raised P on none h = IsClosed-refuses seat K P _
  IsClosed-raised P on (some p) h = IsClosed-declaring seat K P on p (h p refl)

  pub Brings-raised :
      (Q : Type 0) (on : ℕ) (o : Option Primitive)
      → ((p : Primitive) → o ≡ some p → Known seat K p.nodes → Q)
      → Brings seat K Q (given (raised_by o) (declaring on))
  unfolding raised_by given refuses
  Brings-raised Q on none h = λ n. tt
  Brings-raised Q on (some p) h = Brings-declaring seat K Q on p (h p refl)

  pub IsClosed-opens_unit :
      (P : Type 0) (kind subject : String) → IsClosed seat K P (opens_unit kind subject)
  unfolding opens_unit nodes_of
  IsClosed-opens_unit P kind subject n = λ p known. tt

  module _ (P : Type 0) (host netns : String) (named : P → K ("netns:" <> netns)) where
    rules-Refer :
        (on : ℕ) (rows : List Row)
        → P
        → Refer seat K (nodes_of (map (rule_call host netns on) rows))
    unfolding nodes_of rule_call op_nodes net_primitive refs node
    rules-Refer on [] p = tt
    rules-Refer on (r ∷ rows) p = ((named p, tt), rules-Refer on rows p)

    IsClosed-emit_group :
        (dev : String) (g : GroupNode) → IsClosed seat K P (emit_group host netns dev g)
    unfolding emit_group nodes_of
    IsClosed-emit_group dev g n = put (group_rows dev g)
      where
        put :
            (o : Outcome (List Row))
            → Holds
                (λ cs. P → Known seat K (nodes_of cs) → Refer seat K (nodes_of cs))
                (o >>= λ rows. done (
                  unit "security group" (some (g.name <> " in " <> netns <> " on " <> dev))
                  ∷ map (rule_call host netns n) rows))
        put (failed e) = tt
        put (done rows) = λ p known. rules-Refer n rows p

    pub IsClosed-side_network :
        (lib : Library) (dev : String) (on : ℕ) (groups : List GroupNode) (ipaddrs : List String)
        (routes : List SideRoute)
        → (P → K ("link:" <> netns <> "|" <> dev))
        → IsClosed seat K P (side_network lib host netns dev on groups ipaddrs routes)
    unfolding side_network addr_primitive route_primitive refs node netns_ref link_ref ns_arg
    IsClosed-side_network lib dev on groups ipaddrs routes linked =
        IsClosed-then_emit seat K P _ _
          (IsClosed-then_emit seat K P _ _
            (IsClosed-for_each seat K P _ ipaddrs (λ addr. IsClosed-raised P on _ (λ p e q known.
              let (i, found, same) = >>=-eq-some (lib.ip_interface addr) _ e in
              of_some (λ x. Refer seat K x.nodes) _ p same ((named q, (linked q, tt)), tt))))
            (IsClosed-for_each seat K P _ routes
              (λ route. IsClosed-declaring seat K P on _ (λ q known. ((named q, tt), tt)))))
          (IsClosed-for_each seat K P _ groups (IsClosed-emit_group dev))

-- What is there around a router's sides: its namespaces, and the bridges of its veth pairs.
pub record Around (K : String → Type 0) (ns : List KernelNode) (netns : String) : Type 0 where
  pub named : K ("netns:" <> netns)
  pub root : K "netns:*global*"
  pub bridges :
      (leg bridge : String) → root_bridge leg ns ≡ some bridge → K ("ovs.bridge:" <> bridge)

module _ (seat : String) (K : String → Type 0) (ns : List KernelNode)
    (host netns dev : String) where
  -- The nodes refer to nodes that are around or among them, and they have the device.
  abbrev pub AreLinked : List RawNodeTemplate → Type 0
  AreLinked ts =
      Known seat K ts → (Around K ns netns → Refer seat K ts) × K ("link:" <> netns <> "|" <> dev)

  -- The references of the leg in the namespace, with or without an address.
  refs-veth :
      (short : String) (mac : Option String) (rest : List KernelIface)
      → refs (node seat (link_node (side_link ns host netns dev (veth short mac ∷ rest))))
        ≡ ("netns:" <> netns) ∷ root_key ("veth-ovn-" <> short) ∷ []
  unfolding side_link plain_link refs node link_node final_name or_else
  refs-veth short none rest = refl
  refs-veth short (some mac) rest = elim (Bool-cases (str_eq mac "")) [
    | inl e ↦ rw e refl
    | inr e ↦ rw e refl
  ]

  pub link-AreLinked :
      (ifaces : List KernelIface) (p : Primitive)
      → netns_link_primitive (side_link ns host netns dev ifaces) ≡ some p
      → AreLinked p.nodes
  unfolding netns_link_primitive side_link plain_link made refs node link_node final_name or_else
      port_nodes root_node link_key root_key
  link-AreLinked [] p e =
      of_some (λ x. AreLinked x.nodes) _ p e (λ k. (λ a. ((a.named, tt), tt), k.0))
  link-AreLinked (vlan name parent id ∷ rest) p e =
      of_some (λ x. AreLinked x.nodes) _ p e (λ k. (λ a. ((a.named, tt), tt), k.0))
  link-AreLinked (physical name ∷ rest) p e =
      of_some (λ x. AreLinked x.nodes) _ p e (λ k. (λ a. ((a.named, tt), tt), k.0))
  link-AreLinked (other_iface kind ∷ rest) p e =
      of_some (λ x. AreLinked x.nodes) _ p e (λ k. (λ a. ((a.named, tt), tt), k.0))
  link-AreLinked (veth short mac ∷ rest) p e =
      of_some (λ x. AreLinked x.nodes) _ p e
        (go (root_bridge ("veth-ovn-" <> short) ns) (λ bridge found. found))
    where
      leg : String
      leg = "veth-ovn-" <> short

      l : NetnsLink
      l = side_link ns host netns dev (veth short mac ∷ rest)

      leg_refs : Around K ns netns → K (root_key leg) → All K (refs (node seat (link_node l)))
      leg_refs a k = subst (All K) (sym (refs-veth short mac rest)) (a.named, (k, tt))

      go :
          (o : Option String)
          → ((bridge : String) → o ≡ some bridge → root_bridge leg ns ≡ some bridge)
          → AreLinked ((port_nodes leg o ++ (root_node l leg ∷ [])) ++ (link_node l ∷ []))
      go none h = λ k. (λ a. ((a.root, (k.1.0, tt)), (leg_refs a k.0, tt)), k.1.0)
      go (some bridge) h = λ k. (
        λ a. (
          (a.bridges leg bridge (h bridge refl), tt),
          ((a.root, (k.1.1.0, tt)), (leg_refs a k.1.0, tt)),
        ),
        k.1.1.0,
      )
