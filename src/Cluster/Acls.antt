-- ===== src/Cluster/Acls.antt =====
-- The ACLs of a router (deployer/ir_common.py, `_emit_router_acl`).
use ovn_fabric.Prelude.{
  ℕ, String, Bool, true, false, ◌||◌, ◌&&◌, Option, none, some, List, [], ◌∷◌, ◌++◌, map, any,
  is_some, str_eq, ◌==◌, Dict, sort_names, if◌then◌else◌,
}
use ovn_fabric.Sysdeps.Names.{dedupe}
use ovn_fabric.Primitives.Ovn.Kinds.{OvnObject, acl}
use ovn_fabric.Plan.Calls.{Outcome, done, ◌>>=◌, Emission, nothing, opening, given, object}
use ovn_fabric.Cluster.Nodes.{
  Direction, output, AclAction, allow, deny, reject, PortRange, FilterRule, Rule, filter_rule,
  Defaults, GroupNode, PortNode,
}
use ovn_fabric.Cluster.Groups.{need}
use ovn_fabric.Cluster.Matches.{acl_match}

-- `direction_map` and `action_map`, with `allow-related` for a rule that allows.
direction_text : Direction → String
direction_text output = "from-lport"
direction_text _ = "to-lport"

rule_action : AclAction → String
rule_action allow = "allow-related"
rule_action deny = "drop"
rule_action reject = "reject"

default_action : AclAction → String
default_action allow = "allow"
default_action deny = "drop"
default_action reject = "reject"

-- An ACL to be: its direction, priority, match and action. `add_acl` compares these.
pub record Entry : Type 0 where
  pub switch : String
  pub direction : String
  pub priority : ℕ
  pub match : String
  pub action : String

unfoldable pub acl_of : Entry → OvnObject
acl_of e = acl e.switch e.direction e.priority e.match e.action

unfoldable pub same_entry : Entry → Entry → Bool
same_entry a b =
    str_eq a.switch b.switch
    && str_eq a.direction b.direction
    && a.priority == b.priority
    && str_eq a.match b.match
    && str_eq a.action b.action

-- `add_acl` on all entries, where `seen` are the ones before.
unfoldable pub fresh_from : List Entry → List Entry → List Entry
unfolding same_entry
fresh_from seen [] = []
fresh_from seen (e ∷ es) =
    if any (same_entry e) seen then fresh_from seen es else e ∷ fresh_from (e ∷ seen) es

or_100 : Option ℕ → ℕ
or_100 none = 100
or_100 (some n) = n

-- `list(rule.ports) if rule.ports else [None]`
unfoldable pub port_choices : List PortRange → List (Option PortRange)
port_choices [] = none ∷ []
port_choices ps = map some ps

unfoldable pub rule_entries : String → FilterRule → List (Option PortRange) → Outcome (List Entry)
unfolding direction_text rule_action or_100
rule_entries switch r [] = done []
rule_entries switch r (p ∷ ps) = acl_match r p >>= λ match. rule_entries switch r ps >>= λ rest.
    done (
      record {
        switch = switch;
        direction = direction_text r.direction;
        priority = or_100 r.priority;
        match = match;
        action = rule_action r.action;
      }
      ∷ rest)

unfoldable pub rules_entries : String → List Rule → Outcome (List Entry)
unfolding rule_entries port_choices
rules_entries switch [] = done []
rules_entries switch (filter_rule r ∷ rs) = rule_entries switch r (port_choices r.ports) >>= λ es.
    rules_entries switch rs >>= λ rest. done (es ++ rest)
rules_entries switch (r ∷ rs) = rules_entries switch rs

unfoldable pub default_entry : String → String → Option AclAction → List Entry
unfolding default_action
default_entry switch direction none = []
default_entry switch direction (some a) =
    record {
      switch = switch;
      direction = direction;
      priority = 1;
      match = "1";
      action = default_action a;
    }
    ∷ []

unfoldable pub default_entries : String → Option Defaults → List Entry
unfolding default_entry
default_entries switch none = []
default_entries switch (some d) =
    default_entry switch "to-lport" d.input
    ++ default_entry switch "from-lport" d.output
    ++ default_entry switch "to-lport" d.forward

unfoldable pub switch_entries : GroupNode → List String → Outcome (List Entry)
unfolding rules_entries default_entries
switch_entries g [] = done []
switch_entries g (s ∷ ss) = rules_entries s g.rules >>= λ es.
    switch_entries g ss >>= λ rest. done (es ++ default_entries s g.default ++ rest)

unfoldable pub group_entries : List GroupNode → List String → Outcome (List Entry)
unfolding switch_entries
group_entries [] switches = done []
group_entries (g ∷ gs) switches =
    switch_entries g switches >>= λ es. group_entries gs switches >>= λ rest. done (es ++ rest)

-- `used_directions`, in the order of its use.
rule_directions : List Rule → List String
unfolding direction_text
rule_directions [] = []
rule_directions (filter_rule r ∷ rs) = direction_text r.direction ∷ rule_directions rs
rule_directions (r ∷ rs) = rule_directions rs

unfoldable pub directions : List GroupNode → List String
unfolding rule_directions
directions [] = []
directions (g ∷ gs) =
    rule_directions g.rules
    ++ (if is_some g.default then "to-lport" ∷ "from-lport" ∷ [] else [])
    ++ directions gs

-- What goes on for a connection that is there already.
unfoldable pub established_on : String → List String → List Entry
established_on switch [] = []
established_on switch (d ∷ ds) =
    record {
      switch = switch;
      direction = d;
      priority = 30000;
      match = "ct.est == 1 || ct.rel == 1";
      action = "allow";
    }
    ∷ established_on switch ds

unfoldable pub established : List String → List String → List Entry
unfolding established_on
established [] ds = []
established (s ∷ ss) ds = established_on s ds ++ established ss ds

is_filter : Rule → Bool
is_filter (filter_rule r) = true
is_filter _ = false

-- Some rule is a filter, or has a group with a default.
unfoldable pub has_acls : List GroupNode → Bool
unfolding is_filter
has_acls gs = any (λ g. any (λ r. is_filter r || is_some g.default) g.rules) gs

-- The switches of the ports.
unfoldable pub port_switches : Dict String → List PortNode → Outcome (List String)
port_switches domains [] = done []
port_switches domains (p ∷ ps) =
    need p.segment domains >>= λ s. port_switches domains ps >>= λ rest. done (s ∷ rest)

unfoldable pub acl_unit : String → List String → List GroupNode → List Entry → Emission
unfolding acl_of fresh_from established directions
acl_unit router switches groups entries = opening "router ACL" (some router) (
    map (λ e. object (acl_of e))
      (established switches (sort_names (dedupe (directions groups))) ++ fresh_from [] entries))

unfoldable pub with_switches : String → List GroupNode → List String → Emission
unfolding acl_unit
with_switches router groups [] = nothing
with_switches router groups switches =
    given (group_entries groups switches) (acl_unit router switches groups)

-- `_emit_router_acl`, for a router with security groups
unfoldable pub emit_acls : String → Dict String → List PortNode → List GroupNode → Emission
unfolding with_switches
emit_acls router domains ports groups =
    if has_acls groups
    then given (port_switches domains ports)
        (λ found. with_switches router groups (sort_names (dedupe found)))
    else nothing
