-- ===== src/Kernel/Iptables.antt =====
-- What the rules of deployer/ir_common.py rely on of iptables and ip6tables, which are not part of
-- this repository: how a packet meets the rules of a chain.
use ovn_fabric.Prelude.{
  ℕ, String, ◌<>◌, ◌≡◌, Bool, true, false, not, ◌&&◌, Option, none, some, List, [], ◌∷◌, ◌++◌,
  str_eq, ◌==◌, leb, str, if◌then◌else◌,
}
use ovn_fabric.Cluster.Nodes.{
  AclAction, allow, deny, reject, Family, ipv4, ipv6, Direction, input, output, forward, Protocol,
  tcp, udp, icmp, icmpv6,
}
use ovn_fabric.Kernel.Filters.{Row}

-- What can be asked of a packet.
pub record Packets (Packet : Type 0) : Type 0 where
  pub comes_from : String → Packet → Bool
  pub goes_to : String → Packet → Bool
  pub speaks : Protocol → Packet → Bool
  pub port : Packet → ℕ
  pub replies : Packet → Bool

-- The options of a rule: at most one source, one destination, one protocol and its ports.
pub data SourceTest : Type 0 where
  anywhere : SourceTest
  from not_from : String → SourceTest

pub data PortTest : Type 0 where
  any_port : PortTest
  one_port : ℕ → PortTest
  between : ℕ → ℕ → PortTest

pub record Options : Type 0 where
  pub source : SourceTest
  pub destination : Option String
  pub protocol : Option Protocol
  pub ports : PortTest

abbrev pub source_words : SourceTest → List String
source_words anywhere = []
source_words (from x) = "-s" ∷ x ∷ []
source_words (not_from x) = "!" ∷ "-s" ∷ x ∷ []

abbrev pub destination_words : Option String → List String
destination_words none = []
destination_words (some x) = "-d" ∷ x ∷ []

abbrev pub protocol_words : Option Protocol → List String
protocol_words none = []
protocol_words (some tcp) = "-p" ∷ "tcp" ∷ []
protocol_words (some udp) = "-p" ∷ "udp" ∷ []
protocol_words (some icmp) = "-p" ∷ "icmp" ∷ []
protocol_words (some icmpv6) = "-p" ∷ "icmpv6" ∷ []

abbrev pub port_words : PortTest → List String
port_words any_port = []
port_words (one_port n) = "--dport" ∷ str n ∷ []
port_words (between m n) = "--dport" ∷ (str m <> ":" <> str n) ∷ []

abbrev pub jump : AclAction → List String
jump allow = "-j" ∷ "ACCEPT" ∷ []
jump deny = "-j" ∷ "DROP" ∷ []
jump reject = "-j" ∷ "REJECT" ∷ []

abbrev pub rule_words : Options → AclAction → List String
rule_words o a =
    source_words o.source
    ++ (destination_words o.destination
        ++ (protocol_words o.protocol ++ (port_words o.ports ++ jump a)))

module _ {Packet : Type 0} (q : Packets Packet) where
  abbrev pub meets_source : SourceTest → Packet → Bool
  meets_source anywhere p = true
  meets_source (from x) p = q.comes_from x p
  meets_source (not_from x) p = not (q.comes_from x p)

  abbrev pub meets_destination : Option String → Packet → Bool
  meets_destination none p = true
  meets_destination (some x) p = q.goes_to x p

  abbrev pub meets_protocol : Option Protocol → Packet → Bool
  meets_protocol none p = true
  meets_protocol (some x) p = q.speaks x p

  abbrev pub meets_port : PortTest → Packet → Bool
  meets_port any_port p = true
  meets_port (one_port n) p = q.port p == n
  meets_port (between m n) p = leb m (q.port p) && leb (q.port p) n

  abbrev pub meets : Options → Packet → Bool
  meets o p =
      meets_source o.source p
      && (meets_destination o.destination p
          && (meets_protocol o.protocol p && meets_port o.ports p))

-- The chain of the filter table that a packet meets.
abbrev pub tool : Family → String
tool ipv4 = "iptables"
tool ipv6 = "ip6tables"

abbrev pub hook : Direction → String
hook input = "INPUT"
hook output = "OUTPUT"
hook forward = "FORWARD"

-- The row is in that chain.
abbrev pub is_in : Family → Direction → Row → Bool
is_in f d r = str_eq r.binary (tool f) && (str_eq r.table "filter" && str_eq r.chain (hook d))

-- `verdict` says what becomes of a packet in a chain to which the rows were appended in their
-- order, and nothing else; it is none when the policy of the chain decides. The first rule that the
-- packet meets decides.
pub record Netfilter {Packet : Type 0} (q : Packets Packet) : Type 0 where
  pub verdict : Family → Direction → List Row → Packet → Option AclAction
  pub verdict_nil : (f : Family) (d : Direction) (p : Packet) → verdict f d [] p ≡ none
  pub verdict_other :
      (f : Family) (d : Direction) (r : Row) (rs : List Row) (p : Packet)
      → is_in f d r ≡ false
      → verdict f d (r ∷ rs) p ≡ verdict f d rs p
  pub verdict_rule :
      (f : Family) (d : Direction) (r : Row) (o : Options) (a : AclAction) (rs : List Row)
      (p : Packet)
      → is_in f d r ≡ true
      → r.args ≡ rule_words o a
      → verdict f d (r ∷ rs) p ≡ (if meets q o p then some a else verdict f d rs p)
  pub verdict_conntrack :
      (f : Family) (d : Direction) (r : Row) (a : AclAction) (rs : List Row) (p : Packet)
      → is_in f d r ≡ true
      → r.args ≡ "-m" ∷ "conntrack" ∷ "--ctstate" ∷ "ESTABLISHED,RELATED" ∷ jump a
      → verdict f d (r ∷ rs) p ≡ (if q.replies p then some a else verdict f d rs p)
