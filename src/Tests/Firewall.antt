-- ===== src/Tests/Firewall.antt =====
-- A packet filter that reads the rules of a kernel router (deployer/ir_common.py) from their words, and
-- a router's security groups on it.
use ovn_fabric.Prelude.{
  ℕ, String, ◌<>◌, ◌≡◌, refl, ap, ◌∙◌, Bool, true, false, not, ◌&&◌, Option, none, some, List, [],
  ◌∷◌, ◌++◌, str_eq, ◌==◌, leb, str, arith, if◌then◌else◌,
}
use ovn_fabric.Plan.Calls.{done}
use ovn_fabric.Cluster.Nodes.{
  Direction, forward, AclAction, allow, deny, reject, Family, ipv4, Protocol, tcp, udp, icmp,
  icmpv6, masq, filter_rule, GroupNode,
}
use ovn_fabric.Kernel.Filters.{Row, groups_rows}
use ovn_fabric.Kernel.Iptables.{
  Packets, Netfilter, SourceTest, anywhere, from, not_from, PortTest, any_port, one_port, between,
  Options, source_words, destination_words, protocol_words, port_words, jump, rule_words,
  meets_source, meets_destination, meets_protocol, meets_port, meets, is_in,
}
use ovn_fabric.Kernel.Policy.{groups_say}
use ovn_fabric.Kernel.Decimals.{Reading, read, read-append, read-str}
use ovn_fabric.Kernel.Firewall.{groups_rows-verdict}

record Datagram : Type 0 where
  source : String
  target : String
  protocol : Protocol
  port : ℕ
  reply : Bool

abbrev protocol_word : Protocol → String
protocol_word tcp = "tcp"
protocol_word udp = "udp"
protocol_word icmp = "icmp"
protocol_word icmpv6 = "icmpv6"

abbrev datagrams : Packets Datagram
datagrams = record {
  comes_from = λ x p. str_eq x p.source;
  goes_to = λ x p. str_eq x p.target;
  speaks = λ x p. str_eq (protocol_word x) (protocol_word p.protocol);
  port = λ p. p.port;
  replies = λ p. p.reply;
}

abbrev is_port : Reading → ℕ → Bool
is_port (none, n) port = port == n
is_port (some m, n) port = leb m port && leb port n

abbrev flip : Bool → Bool → Bool
flip true b = not b
flip false b = b

option_holds : (negated : Bool) → String → String → Datagram → Bool
unfolding read
option_holds negated option value p =
    if str_eq option "-s"
    then flip negated (str_eq value p.source)
    else if str_eq option "-d"
    then str_eq value p.target
    else if str_eq option "-p"
    then str_eq value (protocol_word p.protocol)
    else if str_eq option "--dport"
    then is_port (read (none, 0) value) p.port
    else if str_eq option "--ctstate"
    then p.reply
    else true

target_named : String → AclAction
target_named s = if str_eq s "ACCEPT" then allow else if str_eq s "DROP" then deny else reject

-- What a rule says of a packet, option by option, where `rest` is what the later rules say.
run_words : Datagram → Option AclAction → (negated holds : Bool) → List String → Option AclAction
unfolding option_holds target_named
run_words p rest negated holds [] = rest
run_words p rest negated holds (w ∷ []) = rest
run_words p rest negated holds (w ∷ v ∷ more) =
    let negation = run_words p rest true holds (v ∷ more) in
    let next = run_words p rest false (holds && option_holds negated w v p) more in
    if str_eq w "!"
    then negation
    else if str_eq w "-j"
    then (if holds then some (target_named v) else rest)
    else next

run_rows : Family → Direction → List Row → Datagram → Option AclAction
unfolding run_words
run_rows f d [] p = none
run_rows f d (r ∷ rs) p =
    let rest = run_rows f d rs p in if is_in f d r then run_words p rest false true r.args else rest

module _ (p : Datagram) (rest : Option AclAction) where
  run : Bool → List String → Option AclAction
  unfolding run_words
  run = run_words p rest false

  and-true : (b : Bool) (ws : List String) → run b ws ≡ run (b && true) ws
  and-true true ws = refl
  and-true false ws = refl

  run-source :
      (b : Bool) (t : SourceTest) (ws : List String)
      → run b (source_words t ++ ws) ≡ run (b && meets_source datagrams t p) ws
  unfolding run run_words option_holds
  run-source b anywhere ws = and-true b ws
  run-source b (from x) ws = refl
  run-source b (not_from x) ws = refl

  run-destination :
      (b : Bool) (t : Option String) (ws : List String)
      → run b (destination_words t ++ ws) ≡ run (b && meets_destination datagrams t p) ws
  unfolding run run_words option_holds
  run-destination b none ws = and-true b ws
  run-destination b (some x) ws = refl

  run-protocol :
      (b : Bool) (t : Option Protocol) (ws : List String)
      → run b (protocol_words t ++ ws) ≡ run (b && meets_protocol datagrams t p) ws
  unfolding run run_words option_holds
  run-protocol b none ws = and-true b ws
  run-protocol b (some tcp) ws = refl
  run-protocol b (some udp) ws = refl
  run-protocol b (some icmp) ws = refl
  run-protocol b (some icmpv6) ws = refl

  run-port :
      (b : Bool) (t : PortTest) (ws : List String)
      → run b (port_words t ++ ws) ≡ run (b && meets_port datagrams t p) ws
  unfolding run run_words option_holds
  run-port b any_port ws = and-true b ws
  run-port b (one_port n) ws = ap (λ r. run (b && is_port r p.port) ws) (read-str none n)
  run-port b (between m n) ws =
      ap (λ r. run (b && is_port r p.port) ws)
        (read-append (none, 0) (str m) (":" <> str n)
          ∙ ap (λ r. read r (":" <> str n)) (read-str none m)
          ∙ read-append (none, m) ":" (str n)
          ∙ read-str (some m) n)

  run-jump : (b : Bool) (a : AclAction) → run b (jump a) ≡ (if b then some a else rest)
  unfolding run run_words option_holds target_named
  run-jump b allow = refl
  run-jump b deny = refl
  run-jump b reject = refl

  run-rule :
      (o : Options) (a : AclAction)
      → run true (rule_words o a) ≡ (if meets datagrams o p then some a else rest)
  run-rule o a =
      run-source true o.source _
      ∙ run-destination _ o.destination _
      ∙ run-protocol _ o.protocol _
      ∙ run-port _ o.ports (jump a)
      ∙ run-jump _ a
      ∙ ap (λ b. if b then some a else rest) (ground arith)

  run-conntrack :
      (a : AclAction)
      → run true ("-m" ∷ "conntrack" ∷ "--ctstate" ∷ "ESTABLISHED,RELATED" ∷ jump a)
        ≡ (if p.reply then some a else rest)
  unfolding run run_words option_holds target_named
  run-conntrack allow = refl
  run-conntrack deny = refl
  run-conntrack reject = refl

in_its_chain :
    (f : Family) (d : Direction) (r : Row) (rs : List Row) (p : Datagram)
    → is_in f d r ≡ true
    → run_rows f d (r ∷ rs) p ≡ run p (run_rows f d rs p) true r.args
unfolding run_rows run
in_its_chain f d r rs p h = rw h refl

in_another_chain :
    (f : Family) (d : Direction) (r : Row) (rs : List Row) (p : Datagram)
    → is_in f d r ≡ false
    → run_rows f d (r ∷ rs) p ≡ run_rows f d rs p
unfolding run_rows
in_another_chain f d r rs p h = rw h refl

no_rows : (f : Family) (d : Direction) (p : Datagram) → run_rows f d [] p ≡ none
unfolding run_rows
no_rows f d p = refl

abbrev filter : Netfilter datagrams
filter = record {
  verdict = run_rows;
  verdict_nil = no_rows;
  verdict_other = in_another_chain;
  verdict_rule = λ f d r o a rs p h e.
      in_its_chain f d r rs p h
      ∙ ap (run p (run_rows f d rs p) true) e
      ∙ run-rule p (run_rows f d rs p) o a;
  verdict_conntrack = λ f d r a rs p h e.
      in_its_chain f d r rs p h
      ∙ ap (run p (run_rows f d rs p) true) e
      ∙ run-conntrack p (run_rows f d rs p) a;
}

abbrev web : GroupNode
web = record {
  name = "web";
  rules =
      masq ipv4
      ∷ filter_rule (record {
        direction = forward;
        action = allow;
        family = ipv4;
        sources = "10.0.0.0/24" ∷ "10.0.1.0/24" ∷ [];
        exclude_sources = [];
        destinations = [];
        protocol = some tcp;
        ports = record { first = 80; last = 80 } ∷ record { first = 8000; last = 8100 } ∷ [];
        priority = none;
      })
      ∷ filter_rule (record {
        direction = forward;
        action = reject;
        family = ipv4;
        sources = [];
        exclude_sources = "10.0.0.0/24" ∷ [];
        destinations = [];
        protocol = none;
        ports = [];
        priority = none;
      })
      ∷ [];
  default = some (record { input = none; output = none; forward = some deny });
}

abbrev request : ℕ → String → Datagram
request port source = record {
  source = source;
  target = "192.0.2.1";
  protocol = tcp;
  port = port;
  reply = false;
}

groups_rows-verdict_example :
    (rows : List Row) × (groups_rows "eth0" (web ∷ []) ≡ done rows)
    × ((f : Family) (d : Direction) (p : Datagram)
        → run_rows f d rows p ≡ groups_say datagrams f d p (web ∷ []))
groups_rows-verdict_example =
    groups_rows-verdict filter "eth0" (web ∷ [])
      ((tt, (((tt, (tt, tt)), (tt, (tt, tt))), (((tt, tt), (tt, tt)), tt))), tt)

-- A port in the range, from the second source.
test_range : groups_say datagrams ipv4 forward (request 8042 "10.0.1.0/24") (web ∷ []) ≡ some allow
test_range = refl

-- No rule is for the packet, so the default decides.
test_default : groups_say datagrams ipv4 forward (request 22 "10.0.0.0/24") (web ∷ []) ≡ some deny
test_default = refl

test_reject : groups_say datagrams ipv4 forward (request 22 "10.9.0.0/24") (web ∷ []) ≡ some reject
test_reject = refl
