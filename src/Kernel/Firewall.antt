-- ===== src/Kernel/Firewall.antt =====
-- What the security groups of a kernel router (deployer/ir_common.py) come to on a host.
use ovn_fabric.Prelude.{
  String, ◌≡◌, refl, sym, ap, ◌∙◌, Option, none, some, List, [], ◌∷◌, ◌++◌, append-nil, All,
}
use mathlib.Core.Path.{subst}
use ovn_fabric.Plan.Calls.{Outcome, done, ◌>>=◌}
use ovn_fabric.Plan.Discipline.{Holds}
use ovn_fabric.Cluster.Nodes.{
  Direction, AclAction, Family, Protocol, tcp, udp, icmp, icmpv6, PortRange, FilterRule, Rule, masq,
  snat, filter_rule, GroupNode,
}
use ovn_fabric.Kernel.Filters.{
  Row, choices, port_args, port_rows, destination_rows, source_rows, kernel_rows, rules_rows,
  group_rows, groups_rows,
}
use ovn_fabric.Kernel.Iptables.{Packets, Netfilter}
use ovn_fabric.Kernel.Policy.{◌or_else◌, groups_say}
use ovn_fabric.Kernel.Verdicts.{Say}
use ovn_fabric.Kernel.Refines.{HasOneSource, Say-groups_rows, or_else-none}

-- Ports go with a protocol that has them.
abbrev TakesPort : Option Protocol → Option PortRange → Type 0
TakesPort proto none = Unit
TakesPort (some tcp) (some r) = Unit
TakesPort (some udp) (some r) = Unit
TakesPort proto (some r) = ⊥

-- A rule that the kernel takes: no `snat`, ports with tcp and udp alone, one source to a row.
abbrev pub IsForKernel : Rule → Type 0
IsForKernel (masq f) = Unit
IsForKernel (snat external_ip logical_ips) = ⊥
IsForKernel (filter_rule r) =
    All (TakesPort r.protocol) (choices r.ports) × HasOneSource (filter_rule r)

abbrev IsDone : {A : Type 0} → Outcome A → Type 0
IsDone {A} o = (a : A) × (o ≡ done a)

module _ {A B : Type 0} where
  IsDone->>= :
      (o : Outcome A) (f : A → Outcome B) → IsDone o → ((a : A) → IsDone (f a)) → IsDone (o >>= f)
  IsDone->>= o f (a, e) h = ((h a).0, ap (λ x. x >>= f) e ∙ (h a).1)

module _ {A B C : Type 0} where
  -- Two results put together.
  IsDone-both :
      (o : Outcome A) (p : Outcome B) (f : A → B → C)
      → IsDone o
      → IsDone p
      → IsDone (o >>= λ a. p >>= λ b. done (f a b))
  IsDone-both o p f h k = IsDone->>= o _ h (λ a. (f a k.0, ap (λ x. x >>= λ b. done (f a b)) k.1))

IsDone-port_args :
    (proto : Option Protocol) (o : Option PortRange)
    → TakesPort proto o
    → IsDone (port_args proto o)
unfolding port_args
IsDone-port_args proto none h = (_, refl)
IsDone-port_args none (some r) h = elim h [ ]
IsDone-port_args (some tcp) (some r) h = (_, refl)
IsDone-port_args (some udp) (some r) h = (_, refl)
IsDone-port_args (some icmp) (some r) h = elim h [ ]
IsDone-port_args (some icmpv6) (some r) h = elim h [ ]

IsDone-port_rows :
    (r : FilterRule) (s t : Option String) (os : List (Option PortRange))
    → All (TakesPort r.protocol) os
    → IsDone (port_rows r s t os)
unfolding port_rows
IsDone-port_rows r s t [] h = (_, refl)
IsDone-port_rows r s t (o ∷ os) h =
    IsDone-both (port_args r.protocol o) (port_rows r s t os) _ (IsDone-port_args r.protocol o h.0)
      (IsDone-port_rows r s t os h.1)

module _ (r : FilterRule) (ports : All (TakesPort r.protocol) (choices r.ports)) where
  IsDone-destination_rows :
      (s : Option String) (ts : List (Option String)) → IsDone (destination_rows r s ts)
  unfolding destination_rows
  IsDone-destination_rows s [] = (_, refl)
  IsDone-destination_rows s (t ∷ ts) =
      IsDone-both (port_rows r s t (choices r.ports)) (destination_rows r s ts) ◌++◌
        (IsDone-port_rows r s t (choices r.ports) ports) (IsDone-destination_rows s ts)

  IsDone-source_rows : (ss : List (Option String)) → IsDone (source_rows r ss)
  unfolding source_rows
  IsDone-source_rows [] = (_, refl)
  IsDone-source_rows (s ∷ ss) =
      IsDone-both (destination_rows r s (choices r.destinations)) (source_rows r ss) ◌++◌
        (IsDone-destination_rows s (choices r.destinations)) (IsDone-source_rows ss)

IsDone-rules_rows :
    (dev : String) (rs : List Rule) → All IsForKernel rs → IsDone (rules_rows dev rs)
unfolding rules_rows kernel_rows
IsDone-rules_rows dev [] h = (_, refl)
IsDone-rules_rows dev (masq f ∷ rs) h =
    IsDone-both (kernel_rows dev (masq f)) (rules_rows dev rs) ◌++◌ (_, refl)
      (IsDone-rules_rows dev rs h.1)
IsDone-rules_rows dev (snat a b ∷ rs) h = elim h.0 [ ]
IsDone-rules_rows dev (filter_rule r ∷ rs) h =
    IsDone-both (source_rows r (choices r.sources)) (rules_rows dev rs) ◌++◌
      (IsDone-source_rows r h.0.0 (choices r.sources)) (IsDone-rules_rows dev rs h.1)

abbrev pub AreForKernel : List GroupNode → Type 0
AreForKernel gs = All (λ g. All IsForKernel g.rules) gs

IsDone-groups_rows :
    (dev : String) (gs : List GroupNode) → AreForKernel gs → IsDone (groups_rows dev gs)
unfolding groups_rows group_rows
IsDone-groups_rows dev [] h = (_, refl)
IsDone-groups_rows dev (g ∷ gs) h =
    IsDone-both (group_rows dev g) (groups_rows dev gs) ◌++◌
      (IsDone->>= (rules_rows dev g.rules) _ (IsDone-rules_rows dev g.rules h.0) (λ xs. (_, refl)))
      (IsDone-groups_rows dev gs h.1)

one_source : (rs : List Rule) → All IsForKernel rs → All HasOneSource rs
one_source [] h = tt
one_source (masq f ∷ rs) h = (tt, one_source rs h.1)
one_source (snat a b ∷ rs) h = elim h.0 [ ]
one_source (filter_rule r ∷ rs) h = (h.0.1, one_source rs h.1)

one_source_each : (gs : List GroupNode) → AreForKernel gs → All (λ g. All HasOneSource g.rules) gs
one_source_each [] h = tt
one_source_each (g ∷ gs) h = (one_source g.rules h.0, one_source_each gs h.1)

verdict_alone :
    {Packet : Type 0} {q : Packets Packet} (n : Netfilter q) (f : Family) (d : Direction)
    (p : Packet) (v : Option AclAction) (rows : List Row)
    → Say n f d p v rows
    → n.verdict f d rows p ≡ v
verdict_alone n f d p v rows h =
    ap (λ l. n.verdict f d l p) (sym (append-nil rows))
    ∙ h []
    ∙ ap (λ w. v or_else w) (n.verdict_nil f d p)
    ∙ or_else-none v

-- The security groups of a device, when all their rules are for the kernel (no `snat`, ports with
-- tcp and udp alone, not more than one source to a row), are declared without an error. A host whose
-- iptables and ip6tables read the declared rules as documented does to each packet, in each chain,
-- what the first group that decides about it asks for: a reply goes on where the group has a filter
-- rule, then the first rule that admits the packet decides, then the group's default.
pub groups_rows-verdict :
    {Packet : Type 0} {q : Packets Packet} (n : Netfilter q) (dev : String) (gs : List GroupNode)
    → AreForKernel gs
    → (rows : List Row) × (groups_rows dev gs ≡ done rows)
      × ((f : Family) (d : Direction) (p : Packet) → n.verdict f d rows p ≡ groups_say q f d p gs)
groups_rows-verdict {q = q} n dev gs h =
    let (rows, e) = IsDone-groups_rows dev gs h in
    (
      rows,
      e,
      λ f d p. verdict_alone n f d p (groups_say q f d p gs) rows (
          subst (Holds (Say n f d p (groups_say q f d p gs))) e
            (Say-groups_rows n f d p dev gs (one_source_each gs h))),
    )
