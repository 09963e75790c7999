-- ===== src/Kernel/Policy.antt =====
-- What a kernel security group asks for, as a policy on packets.
use ovn_fabric.Prelude.{
  Bool, true, false, not, ◌&&◌, Option, none, some, List, [], ◌∷◌, any, leb, if◌then◌else◌,
}
use ovn_fabric.Cluster.Nodes.{
  Direction, input, output, forward, AclAction, allow, Family, PortRange, FilterRule, Rule,
  filter_rule, Defaults, GroupNode,
}
use ovn_fabric.Kernel.Filters.{same_family}
use ovn_fabric.Kernel.Iptables.{Packets, meets_protocol}

abbrev pub same_direction : Direction → Direction → Bool
same_direction input input = true
same_direction output output = true
same_direction forward forward = true
same_direction _ _ = false

-- An empty list asks for nothing.
abbrev pub one_of : {A : Type 0} → (A → Bool) → List A → Bool
one_of t [] = true
one_of t (x ∷ xs) = any t (x ∷ xs)

infixr 5 ◌or_else◌
abbrev pub ◌or_else◌ : Option AclAction → Option AclAction → Option AclAction
none or_else v = v
some a or_else v = some a

abbrev pub if_so : Bool → AclAction → Option AclAction
if_so b a = if b then some a else none

-- The rule is about packets of the family that go that way.
abbrev pub is_about : Family → Direction → FilterRule → Bool
is_about f d r = same_family r.family f && same_direction r.direction d

abbrev pub is_filtered : Family → Direction → List Rule → Bool
is_filtered f d [] = false
is_filtered f d (filter_rule r ∷ rs) = if is_about f d r then true else is_filtered f d rs
is_filtered f d (r ∷ rs) = is_filtered f d rs

abbrev pub default_of : Direction → Option Defaults → Option AclAction
default_of d none = none
default_of input (some s) = s.input
default_of output (some s) = s.output
default_of forward (some s) = s.forward

module _ {Packet : Type 0} (q : Packets Packet) where
  abbrev pub is_within : Packet → PortRange → Bool
  is_within p r = leb r.first (q.port p) && leb (q.port p) r.last

  -- From one of the sources and from none that is excluded, to one of the destinations, in the
  -- protocol and to one of the ports.
  abbrev pub admits : FilterRule → Packet → Bool
  admits r p =
      (one_of (λ s. q.comes_from s p) r.sources
        && not (any (λ s. q.comes_from s p) r.exclude_sources))
      && (one_of (λ d. q.goes_to d p) r.destinations
          && (meets_protocol q r.protocol p && one_of (is_within p) r.ports))

  abbrev pub rule_says : Family → Direction → Packet → Rule → Option AclAction
  rule_says f d p (filter_rule r) = if_so (is_about f d r && admits r p) r.action
  rule_says f d p _ = none

  abbrev pub first_rule : Family → Direction → Packet → List Rule → Option AclAction
  first_rule f d p [] = none
  first_rule f d p (r ∷ rs) = rule_says f d p r or_else first_rule f d p rs

  -- A reply goes on where the group has a filter rule; then the first rule that admits the packet
  -- decides, then the default.
  abbrev pub group_says : Family → Direction → Packet → GroupNode → Option AclAction
  group_says f d p g =
      if_so (is_filtered f d g.rules && q.replies p) allow
      or_else (first_rule f d p g.rules or_else default_of d g.default)

  -- The first group that decides.
  abbrev pub groups_say : Family → Direction → Packet → List GroupNode → Option AclAction
  groups_say f d p [] = none
  groups_say f d p (g ∷ gs) = group_says f d p g or_else groups_say f d p gs
