-- ===== src/Cluster/Matches.antt =====
-- What an ACL matches (deployer/ir_common.py, `_ovn_acl_match`).
use ovn_fabric.Prelude.{
  String, ◌<>◌, Option, none, some, List, [], ◌∷◌, ◌++◌, ◌==◌, str, join, if◌then◌else◌,
}
use ovn_fabric.Plan.Calls.{bad_value, Outcome, done, failed, ◌>>=◌}
use ovn_fabric.Cluster.Nodes.{
  Family, ipv4, ipv6, Protocol, tcp, udp, icmp, icmpv6, PortRange, FilterRule,
}

family_text : Family → String
family_text ipv4 = "ip4"
family_text ipv6 = "ip6"

-- `f"{family}.src == {{{', '.join(xs)}}}"`, for a list that is not empty.
address_set : String → List String → List String
address_set label [] = []
address_set label xs = (label <> " {" <> join ", " xs <> "}") ∷ []

protocol_words : Option Protocol → List String
protocol_words none = []
protocol_words (some tcp) = "tcp" ∷ []
protocol_words (some udp) = "udp" ∷ []
protocol_words (some icmp) = "icmp4" ∷ []
protocol_words (some icmpv6) = "icmp6" ∷ []

range_words : String → PortRange → List String
range_words proto p =
    if p.first == p.last
    then (proto <> ".dst == " <> str p.first) ∷ []
    else (proto <> ".dst >= " <> str p.first) ∷ (proto <> ".dst <= " <> str p.last) ∷ []

port_words : Option Protocol → Option PortRange → Outcome (List String)
unfolding range_words
port_words proto none = done []
port_words (some tcp) (some p) = done (range_words "tcp" p)
port_words (some udp) (some p) = done (range_words "udp" p)
port_words proto (some p) = failed bad_value

or_one : List String → String
or_one [] = "1"
or_one parts = join " && " parts

-- `_ovn_acl_match`
unfoldable pub acl_match : FilterRule → Option PortRange → Outcome String
unfolding family_text address_set protocol_words port_words or_one
acl_match r port =
    let family = family_text r.family in
    port_words r.protocol port >>= λ words. done (
      or_one (
        address_set (family <> ".src ==") r.sources
        ++ address_set (family <> ".src !=") r.exclude_sources
        ++ address_set (family <> ".dst ==") r.destinations
        ++ protocol_words r.protocol
        ++ words))
