-- ===== src/Kernel/Filters.antt =====
-- The iptables rules of a security group in a network namespace (deployer/ir_common.py,
-- `_emit_security_group_rules` and `_masq_families`).
use ovn_fabric.Prelude.{
  String, ◌<>◌, Bool, true, false, Option, none, some, List, [], ◌∷◌, ◌++◌, map, ◌==◌, str,
  sort_names, if◌then◌else◌,
}
use ovn_fabric.Sysdeps.Names.{dedupe}
use ovn_fabric.Plan.Calls.{Outcome, done, failed, ◌>>=◌, bad_value}
use ovn_fabric.Cluster.Nodes.{
  Direction, input, output, forward, AclAction, allow, deny, reject, Family, ipv4, ipv6, Protocol,
  tcp, udp, icmp, icmpv6, PortRange, FilterRule, Rule, masq, snat, filter_rule, Defaults, GroupNode,
}

-- What `_emit_iptables` is called with: a rule that `-A` appends to a chain.
pub record Row : Type 0 where
  pub binary : String
  pub table : String
  pub chain : String
  pub args : List String

unfoldable pub binary_of : Family → String
binary_of ipv4 = "iptables"
binary_of ipv6 = "ip6tables"

unfoldable pub chain_of : Direction → String
chain_of input = "INPUT"
chain_of output = "OUTPUT"
chain_of forward = "FORWARD"

-- `action_map`
unfoldable pub target_of : AclAction → String
target_of allow = "ACCEPT"
target_of deny = "DROP"
target_of reject = "REJECT"

abbrev pub same_family : Family → Family → Bool
same_family ipv4 ipv4 = true
same_family ipv6 ipv6 = true
same_family _ _ = false

-- `chains[...]`, the chains that the filter rules of a family use
unfoldable pub used_chains : Family → List Rule → List String
unfolding chain_of
used_chains f [] = []
used_chains f (filter_rule r ∷ rs) =
    let rest = used_chains f rs in
    if same_family r.family f then chain_of r.direction ∷ rest else rest
used_chains f (r ∷ rs) = used_chains f rs

-- Replies go on.
unfoldable pub reply_rows : String → List String → List Row
reply_rows binary [] = []
reply_rows binary (c ∷ cs) =
    record {
      binary = binary;
      table = "filter";
      chain = c;
      args = "-m" ∷ "conntrack" ∷ "--ctstate" ∷ "ESTABLISHED,RELATED" ∷ "-j" ∷ "ACCEPT" ∷ [];
    }
    ∷ reply_rows binary cs

unfoldable pub stateful_rows : List Rule → List Row
unfolding reply_rows used_chains binary_of
stateful_rows rs =
    reply_rows (binary_of ipv4) (sort_names (dedupe (used_chains ipv4 rs)))
    ++ reply_rows (binary_of ipv6) (sort_names (dedupe (used_chains ipv6 rs)))

-- `list(xs) if xs else [None]`
abbrev pub choices : {A : Type 0} → List A → List (Option A)
choices [] = none ∷ []
choices xs = map some xs

unfoldable pub protocol_text : Protocol → String
protocol_text tcp = "tcp"
protocol_text udp = "udp"
protocol_text icmp = "icmp"
protocol_text icmpv6 = "icmpv6"

-- `[flag, x]`, for an `x` that is there
unfoldable pub option_args : String → Option String → List String
option_args flag none = []
option_args flag (some x) = flag ∷ x ∷ []

unfoldable pub excluded_args : List String → List String
excluded_args [] = []
excluded_args (x ∷ xs) = "!" ∷ "-s" ∷ x ∷ excluded_args xs

unfoldable pub protocol_args : Option Protocol → List String
unfolding protocol_text
protocol_args none = []
protocol_args (some p) = "-p" ∷ protocol_text p ∷ []

unfoldable pub port_text : PortRange → String
port_text p = if p.first == p.last then str p.first else str p.first <> ":" <> str p.last

unfoldable pub port_args : Option Protocol → Option PortRange → Outcome (List String)
unfolding port_text
port_args proto none = done []
port_args (some tcp) (some p) = done ("--dport" ∷ port_text p ∷ [])
port_args (some udp) (some p) = done ("--dport" ∷ port_text p ∷ [])
port_args proto (some p) = failed bad_value

-- The row of one source, one destination and one range of ports.
unfoldable pub rule_row : FilterRule → Option String → Option String → (ports : List String) → Row
unfolding option_args excluded_args protocol_args binary_of chain_of target_of
rule_row r s d ports = record {
  binary = binary_of r.family;
  table = "filter";
  chain = chain_of r.direction;
  args =
      option_args "-s" s
      ++ (excluded_args r.exclude_sources
          ++ (option_args "-d" d
              ++ (protocol_args r.protocol ++ (ports ++ ("-j" ∷ target_of r.action ∷ [])))));
}

-- The three loops, the ports innermost.
unfoldable pub port_rows :
    FilterRule → Option String → Option String → List (Option PortRange) → Outcome (List Row)
unfolding port_args rule_row
port_rows r s d [] = done []
port_rows r s d (o ∷ os) = port_args r.protocol o >>= λ ports.
    port_rows r s d os >>= λ rest. done (rule_row r s d ports ∷ rest)

unfoldable pub destination_rows :
    FilterRule → Option String → List (Option String) → Outcome (List Row)
unfolding port_rows
destination_rows r s [] = done []
destination_rows r s (d ∷ ds) = port_rows r s d (choices r.ports) >>= λ xs.
    destination_rows r s ds >>= λ rest. done (xs ++ rest)

unfoldable pub source_rows : FilterRule → List (Option String) → Outcome (List Row)
unfolding destination_rows
source_rows r [] = done []
source_rows r (s ∷ ss) = destination_rows r s (choices r.destinations) >>= λ xs.
    source_rows r ss >>= λ rest. done (xs ++ rest)

unfoldable pub masq_row : Family → (dev : String) → Row
unfolding binary_of
masq_row f dev = record {
  binary = binary_of f;
  table = "nat";
  chain = "POSTROUTING";
  args = "-o" ∷ dev ∷ "-j" ∷ "MASQUERADE" ∷ [];
}

-- One pass of the loop over the rules.
unfoldable pub kernel_rows : (dev : String) → Rule → Outcome (List Row)
unfolding masq_row source_rows
kernel_rows dev (masq f) = done (masq_row f dev ∷ [])
kernel_rows dev (snat external_ip logical_ips) = failed bad_value
kernel_rows dev (filter_rule r) = source_rows r (choices r.sources)

unfoldable pub rules_rows : (dev : String) → List Rule → Outcome (List Row)
unfolding kernel_rows
rules_rows dev [] = done []
rules_rows dev (r ∷ rs) =
    kernel_rows dev r >>= λ xs. rules_rows dev rs >>= λ rest. done (xs ++ rest)

unfoldable pub default_row : String → String → AclAction → Row
unfolding target_of
default_row binary chain a = record {
  binary = binary;
  table = "filter";
  chain = chain;
  args = "-j" ∷ target_of a ∷ [];
}

unfoldable pub default_rows : Direction → Option AclAction → List Row
unfolding default_row chain_of binary_of
default_rows d none = []
default_rows d (some a) =
    default_row (binary_of ipv4) (chain_of d) a ∷ default_row (binary_of ipv6) (chain_of d) a ∷ []

unfoldable pub all_defaults : Option Defaults → List Row
unfolding default_rows
all_defaults none = []
all_defaults (some d) =
    default_rows input d.input ++ (default_rows output d.output ++ default_rows forward d.forward)

-- `_emit_security_group_rules`, of a group on a device
unfoldable pub group_rows : (dev : String) → GroupNode → Outcome (List Row)
unfolding stateful_rows rules_rows all_defaults
group_rows dev g = rules_rows dev g.rules >>= λ rest.
    done (stateful_rows g.rules ++ (rest ++ all_defaults g.default))

-- The loop over the groups, in `_apply_side_network`.
unfoldable pub groups_rows : (dev : String) → List GroupNode → Outcome (List Row)
unfolding group_rows
groups_rows dev [] = done []
groups_rows dev (g ∷ gs) =
    group_rows dev g >>= λ xs. groups_rows dev gs >>= λ rest. done (xs ++ rest)
