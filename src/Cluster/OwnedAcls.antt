-- ===== src/Cluster/OwnedAcls.antt =====
-- The ACLs of a router (deployer/ir_common.py, `_emit_router_acl`) belong to switches that are
-- there before them.
use ovn_fabric.Prelude.{
  String, ◌≡◌, refl, true, Option, none, some, List, [], ◌∷◌, ◌++◌, map, any, All, All-append, Dict,
  lookup, sort_names, Bool-cases, inl, inr,
}
use ovn_fabric.Sysdeps.Names.{dedupe}
use ovn_fabric.Primitives.Ovn.{ovn_key}
use ovn_fabric.Primitives.Ovn.Kinds.{ls}
use ovn_fabric.Primitives.Owners.{ovn_owners}
use ovn_fabric.Plan.Calls.{Outcome, done, failed, missing_key, Emission, given, refuses, object}
use ovn_fabric.Plan.Discipline.{Holds}
use ovn_fabric.Cluster.Nodes.{
  PortRange, FilterRule, Rule, masq, snat, filter_rule, AclAction, Defaults, GroupNode, PortNode,
}
use ovn_fabric.Cluster.Groups.{need}
use ovn_fabric.Cluster.Matches.{acl_match}
use ovn_fabric.Cluster.Acls.{
  Entry, acl_of, same_entry, fresh_from, port_choices, rule_entries, rules_entries, default_entry,
  default_entries, switch_entries, group_entries, established_on, established, has_acls,
  port_switches, acl_unit, with_switches, emit_acls, directions,
}
use ovn_fabric.Cluster.Owned.{Keys, IsOwned, owners_of, Emits, Emits-nothing, Emits-opening}
use ovn_fabric.Cluster.Kept.{All-if, All-sort_names, All-dedupe, Holds->>=}

module _ (p : Keys) where
  -- A switch of the name is there.
  abbrev pub HasSwitch : String → Type 0
  HasSwitch s = p (ovn_key (ls s)) ≡ true

  -- All names of the table are switches that are there.
  abbrev pub HasDomains : Dict String → Type 0
  HasDomains d = (k s : String) → lookup k d ≡ some s → HasSwitch s

  abbrev Fits : Entry → Type 0
  Fits e = HasSwitch e.switch

  pub need-HasSwitch : (k : String) (d : Dict String) → HasDomains d → Holds HasSwitch (need k d)
  unfolding need
  need-HasSwitch k d h = found (lookup k d) (h k)
    where
      found :
          (o : Option String)
          → ((s : String) → o ≡ some s → HasSwitch s)
          → Holds HasSwitch (elim o [ some x ↦ done x | none ↦ failed (missing_key k) ])
      found none g = tt
      found (some s) g = g s refl

  port_switches-HasSwitch :
      (d : Dict String) (ps : List PortNode)
      → HasDomains d
      → Holds (All HasSwitch) (port_switches d ps)
  unfolding port_switches
  port_switches-HasSwitch d [] h = tt
  port_switches-HasSwitch d (x ∷ ps) h =
      Holds->>= HasSwitch (All HasSwitch) _ _ (need-HasSwitch x.segment d h) (λ s k.
        Holds->>= (All HasSwitch) (All HasSwitch) _ _ (port_switches-HasSwitch d ps h)
          (λ ss ks. (k, ks)))

  -- The entries for one switch.
  module _ (s : String) (here : HasSwitch s) where
    rule_entries-Fits :
        (r : FilterRule) (ps : List (Option PortRange)) → Holds (All Fits) (rule_entries s r ps)
    unfolding rule_entries
    rule_entries-Fits r [] = tt
    rule_entries-Fits r (x ∷ ps) =
        Holds->>= (λ _. Unit) (All Fits) (acl_match r x) _ (always (acl_match r x))
          (λ match u.
            Holds->>= (All Fits) (All Fits) _ _ (rule_entries-Fits r ps) (λ es hs. (here, hs)))
      where
        always : (o : Outcome String) → Holds (λ _. Unit) o
        always (done a) = tt
        always (failed e) = tt

    rules_entries-Fits : (rs : List Rule) → Holds (All Fits) (rules_entries s rs)
    unfolding rules_entries
    rules_entries-Fits [] = tt
    rules_entries-Fits (filter_rule r ∷ rs) =
        Holds->>= (All Fits) (All Fits) _ _ (rule_entries-Fits r (port_choices r.ports)) (λ es hs.
          Holds->>= (All Fits) (All Fits) _ _ (rules_entries-Fits rs)
            (λ fs ks. All-append Fits es fs hs ks))
    rules_entries-Fits (masq f ∷ rs) = rules_entries-Fits rs
    rules_entries-Fits (snat e l ∷ rs) = rules_entries-Fits rs

    default_entry-Fits : (d : String) (a : Option AclAction) → All Fits (default_entry s d a)
    unfolding default_entry
    default_entry-Fits d none = tt
    default_entry-Fits d (some a) = (here, tt)

    default_entries-Fits : (d : Option Defaults) → All Fits (default_entries s d)
    unfolding default_entries
    default_entries-Fits none = tt
    default_entries-Fits (some d) =
        All-append Fits
          (default_entry s "to-lport" d.input ++ default_entry s "from-lport" d.output) _
          (All-append Fits (default_entry s "to-lport" d.input) _ (default_entry-Fits _ d.input)
            (default_entry-Fits _ d.output))
          (default_entry-Fits _ d.forward)

    established_on-Fits : (ds : List String) → All Fits (established_on s ds)
    unfolding established_on
    established_on-Fits [] = tt
    established_on-Fits (d ∷ ds) = (here, established_on-Fits ds)

  switch_entries-Fits :
      (g : GroupNode) (ss : List String) → All HasSwitch ss → Holds (All Fits) (switch_entries g ss)
  unfolding switch_entries
  switch_entries-Fits g [] h = tt
  switch_entries-Fits g (s ∷ ss) (h, hs) =
      Holds->>= (All Fits) (All Fits) _ _ (rules_entries-Fits s h g.rules) (λ es k.
        Holds->>= (All Fits) (All Fits) _ _ (switch_entries-Fits g ss hs) (λ fs j.
          All-append Fits (es ++ default_entries s g.default) fs
            (All-append Fits es _ k (default_entries-Fits s h g.default)) j))

  group_entries-Fits :
      (gs : List GroupNode) (ss : List String)
      → All HasSwitch ss
      → Holds (All Fits) (group_entries gs ss)
  unfolding group_entries
  group_entries-Fits [] ss h = tt
  group_entries-Fits (g ∷ gs) ss h =
      Holds->>= (All Fits) (All Fits) _ _ (switch_entries-Fits g ss h) (λ es k.
        Holds->>= (All Fits) (All Fits) _ _ (group_entries-Fits gs ss h)
          (λ fs j. All-append Fits es fs k j))

  established-Fits : (ss ds : List String) → All HasSwitch ss → All Fits (established ss ds)
  unfolding established
  established-Fits [] ds h = tt
  established-Fits (s ∷ ss) ds (h, hs) =
      All-append Fits (established_on s ds) _ (established_on-Fits s h ds)
        (established-Fits ss ds hs)

  fresh_from-Fits : (seen es : List Entry) → All Fits es → All Fits (fresh_from seen es)
  unfolding fresh_from
  fresh_from-Fits seen [] h = tt
  fresh_from-Fits seen (e ∷ es) (h, hs) =
      All-if Fits (any (same_entry e) seen) (fresh_from seen es) (e ∷ fresh_from (e ∷ seen) es)
        (fresh_from-Fits seen es hs) (h, fresh_from-Fits (e ∷ seen) es hs)

  declared-Fits :
      (es : List Entry)
      → All Fits es
      → All (λ d. IsOwned p (owners_of d)) (map (λ e. object (acl_of e)) es)
  unfolding acl_of ovn_owners
  declared-Fits [] h = tt
  declared-Fits (e ∷ es) (h, hs) = ((h, tt), declared-Fits es hs)

  pub Emits-supplied :
      {A : Type 0} (P : A → Type 0) (o : Outcome A) (f : A → Emission)
      → Holds P o
      → ((a : A) → P a → Emits p (f a) p)
      → Emits p (given o f) p
  unfolding given refuses
  Emits-supplied P (done a) f h k = k a h
  Emits-supplied P (failed e) f h k = λ n. tt

  with_switches-Emits :
      (router : String) (groups : List GroupNode) (ss : List String)
      → All HasSwitch ss
      → Emits p (with_switches router groups ss) p
  unfolding with_switches acl_unit
  with_switches-Emits router groups [] h = Emits-nothing p
  with_switches-Emits router groups (s ∷ ss) h =
      Emits-supplied (All Fits) _ _ (group_entries-Fits groups (s ∷ ss) h) (λ es k.
        Emits-opening p _ _ _ (
          declared-Fits _ (
            All-append Fits (established (s ∷ ss) (sort_names (dedupe (directions groups)))) _
              (established-Fits (s ∷ ss) _ h) (fresh_from-Fits [] es k))))

  pub emit_acls-Emits :
      (router : String) (d : Dict String) (ps : List PortNode) (groups : List GroupNode)
      → HasDomains d
      → Emits p (emit_acls router d ps groups) p
  unfolding emit_acls
  emit_acls-Emits router d ps groups h = elim (Bool-cases (has_acls groups)) [
    | inl e ↦ rw e (
        Emits-supplied (All HasSwitch) _ _ (port_switches-HasSwitch d ps h) (λ ss k.
          with_switches-Emits router groups _
            (All-sort_names HasSwitch (dedupe ss) (All-dedupe HasSwitch ss k))))
    | inr e ↦ rw e (Emits-nothing p)
  ]
