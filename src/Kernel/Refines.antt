-- ===== src/Kernel/Refines.antt =====
-- The security groups of a network namespace (deployer/ir_common.py, `_apply_side_network`) as a
-- policy on packets.
use ovn_fabric.Prelude.{
  String, ◌≡◌, refl, ap, ap₂, ◌∙◌, Bool, true, ◌&&◌, ◌||◌, Option, none, some, List, [], ◌∷◌, ◌++◌,
  str_eq, contains, sort_names, contains-sort_names, arith, All, if◌then◌else◌,
}
use ovn_fabric.Sysdeps.Names.{dedupe}
use ovn_fabric.Sysdeps.Counts.{contains-dedupe_from}
use ovn_fabric.Plan.Discipline.{Holds}
use ovn_fabric.Cluster.Kept.{Holds->>=}
use ovn_fabric.Cluster.Nodes.{
  Direction, input, output, forward, AclAction, allow, Family, ipv4, ipv6, Rule, masq, snat,
  filter_rule, Defaults, GroupNode,
}
use ovn_fabric.Kernel.Filters.{
  Row, binary_of, chain_of, target_of, same_family, choices, used_chains, reply_rows, stateful_rows,
  masq_row, kernel_rows, rules_rows, default_row, default_rows, all_defaults, group_rows,
  groups_rows,
}
use ovn_fabric.Kernel.Iptables.{Packets, Netfilter, Options, anywhere, any_port, hook}
use ovn_fabric.Kernel.Policy.{
  same_direction, ◌or_else◌, if_so, rule_says, first_rule, is_filtered, default_of, group_says,
  groups_say,
}
use ovn_fabric.Kernel.Rows.{IsSingle, is_in-chain, is_tool, is_hook, words-target}
use ovn_fabric.Kernel.Verdicts.{
  or_else-if_so, Say, Say-one, Say-nil, Say-append, Say-eq, Say-filter_rule,
}

-- No row of the rule has more than one source.
abbrev pub HasOneSource : Rule → Type 0
HasOneSource (filter_rule r) = All (λ s. IsSingle s r.exclude_sources) (choices r.sources)
HasOneSource _ = Unit

contains-chain :
    (f : Family) (d : Direction) (rs : List Rule)
    → contains (used_chains f rs) (hook d) ≡ is_filtered f d rs
unfolding used_chains
contains-chain f d [] = refl
contains-chain f d (masq g ∷ rs) = contains-chain f d rs
contains-chain f d (snat a b ∷ rs) = contains-chain f d rs
contains-chain f d (filter_rule r ∷ rs) =
    ground (arith, is_hook d r.direction, contains-chain f d rs)

-- Each packet is of one family.
same_family-filtered :
    (f : Family) (d : Direction) (rs : List Rule) (b : Bool)
    → ((same_family ipv4 f && is_filtered ipv4 d rs && b)
        || (same_family ipv6 f && is_filtered ipv6 d rs && b))
      ≡ (is_filtered f d rs && b)
same_family-filtered ipv4 d rs b = ground arith
same_family-filtered ipv6 d rs b = ground arith

some_family : (f : Family) (b : Bool) → ((same_family ipv4 f && b) || (same_family ipv6 f && b)) ≡ b
some_family ipv4 b = ground arith
some_family ipv6 b = ground arith

pub or_else-none : (v : Option AclAction) → v or_else none ≡ v
or_else-none none = refl
or_else-none (some a) = refl

only : Direction → Direction → Option AclAction → Option AclAction
only e d v = if same_direction e d then v else none

default_of-parts :
    (d : Direction) (s : Defaults)
    → only input d s.input or_else (only output d s.output or_else only forward d s.forward)
      ≡ default_of d (some s)
unfolding only
default_of-parts input s = or_else-none s.input
default_of-parts output s = or_else-none s.output
default_of-parts forward s = refl

module _ {Packet : Type 0} {q : Packets Packet} (n : Netfilter q) (f : Family) (d : Direction)
    (p : Packet) where
  Say-both :
      (b c e : Bool) (a : AclAction) (xs ys : List Row)
      → (b || c) ≡ e
      → Say n f d p (if_so b a) xs
      → Say n f d p (if_so c a) ys
      → Say n f d p (if_so e a) (xs ++ ys)
  Say-both b c e a xs ys h k l =
      Say-eq n f d p (if_so b a or_else if_so c a) (if_so e a) (xs ++ ys)
        (or_else-if_so b c a ∙ ap (λ z. if_so z a) h)
        (Say-append n f d p (if_so b a) (if_so c a) xs ys k l)

  Say-reply_rows :
      (g : Family) (cs : List String)
      → Say n f d p
          (if_so (same_family g f && contains cs (hook d) && q.replies p) allow)
          (reply_rows (binary_of g) cs)
  unfolding reply_rows
  Say-reply_rows g [] = Say-eq n f d p none _ [] (ground arith) (Say-nil n f d p)
  Say-reply_rows g (c ∷ cs) =
      Say-both (same_family g f && str_eq c (hook d) && q.replies p) _ _ allow (_ ∷ [])
        (reply_rows (binary_of g) cs) (ground arith)
        (Say-one n f d p _ (same_family g f && str_eq c (hook d)) (q.replies p) allow
          (ap (λ b. b && str_eq c (hook d)) (is_tool f g))
          (λ in_chain rest. n.verdict_conntrack f d _ allow rest p in_chain refl))
        (Say-reply_rows g cs)

  contains-sorted :
      (g : Family) (rs : List Rule)
      → contains (sort_names (dedupe (used_chains g rs))) (hook d) ≡ is_filtered g d rs
  unfolding dedupe
  contains-sorted g rs =
      contains-sort_names (hook d) (dedupe (used_chains g rs))
      ∙ contains-dedupe_from (hook d) [] (used_chains g rs)
      ∙ contains-chain g d rs

  Say-stateful_rows :
      (rs : List Rule)
      → Say n f d p (if_so (is_filtered f d rs && q.replies p) allow) (stateful_rows rs)
  unfolding stateful_rows
  Say-stateful_rows rs =
      Say-both _ _ _ allow (reply_rows (binary_of ipv4) _) (reply_rows (binary_of ipv6) _)
        (ap₂
            (λ a b.
              (same_family ipv4 f && a && q.replies p) || (same_family ipv6 f && b && q.replies p))
            (contains-sorted ipv4 rs) (contains-sorted ipv6 rs)
          ∙ same_family-filtered f d rs (q.replies p))
        (Say-reply_rows ipv4 _) (Say-reply_rows ipv6 _)

  Say-default_row :
      (g : Family) (e : Direction) (a : AclAction)
      → Say n f d p
          (if_so (same_family g f && same_direction e d) a)
          (default_row (binary_of g) (chain_of e) a ∷ [])
  unfolding default_row
  Say-default_row g e a =
      Say-eq n f d p (if_so ((same_family g f && same_direction e d) && true) a) _ (row ∷ [])
        (ground arith)
        (Say-one n f d p row (same_family g f && same_direction e d) true a
          (is_in-chain f g d e ("-j" ∷ target_of a ∷ []))
          (λ in_chain rest. n.verdict_rule f d row everything a rest p in_chain (words-target a)))
    where
      row : Row
      row = default_row (binary_of g) (chain_of e) a

      everything : Options
      everything = record {
        source = anywhere;
        destination = none;
        protocol = none;
        ports = any_port;
      }

  Say-default_rows :
      (e : Direction) (a : Option AclAction) → Say n f d p (only e d a) (default_rows e a)
  unfolding default_rows only
  Say-default_rows e none = Say-eq n f d p none _ [] (ground arith) (Say-nil n f d p)
  Say-default_rows e (some a) =
      Say-both _ _ _ a (_ ∷ []) (_ ∷ []) (some_family f (same_direction e d))
        (Say-default_row ipv4 e a) (Say-default_row ipv6 e a)

  Say-all_defaults : (s : Option Defaults) → Say n f d p (default_of d s) (all_defaults s)
  unfolding all_defaults
  Say-all_defaults none = Say-nil n f d p
  Say-all_defaults (some s) = Say-eq n f d p _ (default_of d (some s)) _ (default_of-parts d s) (
      Say-append n f d p _ _ (default_rows input s.input) _ (Say-default_rows input s.input) (
        Say-append n f d p _ _ (default_rows output s.output) (default_rows forward s.forward)
          (Say-default_rows output s.output) (Say-default_rows forward s.forward)))

  Say-kernel_rows :
      (dev : String) (r : Rule)
      → HasOneSource r
      → Holds (Say n f d p (rule_says q f d p r)) (kernel_rows dev r)
  unfolding kernel_rows masq_row
  Say-kernel_rows dev (masq g) single =
      λ rest. n.verdict_other f d (masq_row g dev) rest p (ground arith)
  Say-kernel_rows dev (snat a b) single = tt
  Say-kernel_rows dev (filter_rule r) single = Say-filter_rule n f d p r single

  Say-rules_rows :
      (dev : String) (rs : List Rule)
      → All HasOneSource rs
      → Holds (Say n f d p (first_rule q f d p rs)) (rules_rows dev rs)
  unfolding rules_rows
  Say-rules_rows dev [] single = Say-nil n f d p
  Say-rules_rows dev (r ∷ rs) single =
      Holds->>= _ _ (kernel_rows dev r) _ (Say-kernel_rows dev r single.0) (λ xs h.
        Holds->>= _ _ (rules_rows dev rs) _ (Say-rules_rows dev rs single.1)
          (λ ys k. Say-append n f d p (rule_says q f d p r) (first_rule q f d p rs) xs ys h k))

  Say-group_rows :
      (dev : String) (g : GroupNode)
      → All HasOneSource g.rules
      → Holds (Say n f d p (group_says q f d p g)) (group_rows dev g)
  unfolding group_rows
  Say-group_rows dev g single =
      Holds->>= _ _ (rules_rows dev g.rules) _ (Say-rules_rows dev g.rules single) (λ xs h.
        Say-append n f d p _ _ (stateful_rows g.rules) (xs ++ all_defaults g.default)
          (Say-stateful_rows g.rules)
          (Say-append n f d p (first_rule q f d p g.rules) (default_of d g.default) xs
            (all_defaults g.default) h (Say-all_defaults g.default)))

  pub Say-groups_rows :
      (dev : String) (gs : List GroupNode)
      → All (λ g. All HasOneSource g.rules) gs
      → Holds (Say n f d p (groups_say q f d p gs)) (groups_rows dev gs)
  unfolding groups_rows
  Say-groups_rows dev [] single = Say-nil n f d p
  Say-groups_rows dev (g ∷ gs) single =
      Holds->>= _ _ (group_rows dev g) _ (Say-group_rows dev g single.0) (λ xs h.
        Holds->>= _ _ (groups_rows dev gs) _ (Say-groups_rows dev gs single.1)
          (λ ys k. Say-append n f d p (group_says q f d p g) (groups_say q f d p gs) xs ys h k))
