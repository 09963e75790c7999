-- ===== src/Kernel/Rows.antt =====
-- What the rows of deployer/ir_common.py's `_emit_security_group_rules` say, one after the other, of a
-- packet that meets them.
use ovn_fabric.Prelude.{
  String, ◌≡◌, refl, ap, ap₂, ◌∙◌, Bool, true, ◌&&◌, Option, none, some, List, [], ◌∷◌, ◌++◌,
  str_eq, ◌==◌, Bool-cases, inl, inr, if◌then◌else◌,
}
use ovn_fabric.Plan.Discipline.{Holds}
use ovn_fabric.Cluster.Nodes.{
  Direction, input, output, forward, AclAction, allow, deny, reject, Family, ipv4, ipv6, Protocol,
  tcp, udp, icmp, icmpv6, PortRange, FilterRule,
}
use ovn_fabric.Kernel.Filters.{
  binary_of, chain_of, target_of, same_family, option_args, excluded_args, protocol_text,
  protocol_args, port_text, port_args, rule_row,
}
use ovn_fabric.Kernel.Iptables.{
  SourceTest, anywhere, from, not_from, PortTest, any_port, one_port, between, Options,
  source_words, destination_words, protocol_words, port_words, jump, rule_words, is_in, tool, hook,
}
use ovn_fabric.Kernel.Policy.{same_direction}

-- One source at most: iptables takes no second `-s`.
abbrev pub IsSingle : Option String → List String → Type 0
IsSingle s [] = Unit
IsSingle none (x ∷ []) = Unit
IsSingle _ _ = ⊥

abbrev pub source_of : Option String → List String → SourceTest
source_of none [] = anywhere
source_of none (x ∷ xs) = not_from x
source_of (some s) xs = from s

abbrev pub port_of : Option PortRange → PortTest
port_of none = any_port
port_of (some r) = if r.first == r.last then one_port r.first else between r.first r.last

abbrev pub opt : {A : Type 0} → (A → Bool) → Option A → Bool
opt t none = true
opt t (some x) = t x

words-source :
    (s : Option String) (xs rest : List String)
    → IsSingle s xs
    → option_args "-s" s ++ (excluded_args xs ++ rest) ≡ source_words (source_of s xs) ++ rest
unfolding option_args excluded_args
words-source none [] rest h = refl
words-source none (x ∷ []) rest h = refl
words-source none (x ∷ (_ ∷ _)) rest h = elim h [ ]
words-source (some s) [] rest h = refl
words-source (some s) (x ∷ _) rest h = elim h [ ]

words-destination :
    (d : Option String) (rest : List String)
    → option_args "-d" d ++ rest ≡ destination_words d ++ rest
unfolding option_args
words-destination none rest = refl
words-destination (some d) rest = refl

words-protocol : (p : Option Protocol) → protocol_args p ≡ protocol_words p
unfolding protocol_args protocol_text
words-protocol none = refl
words-protocol (some tcp) = refl
words-protocol (some udp) = refl
words-protocol (some icmp) = refl
words-protocol (some icmpv6) = refl

words-port : (r : PortRange) → "--dport" ∷ port_text r ∷ [] ≡ port_words (port_of (some r))
unfolding port_text
words-port r = elim (Bool-cases (r.first == r.last)) [ inl e ↦ rw e refl | inr e ↦ rw e refl ]

pub words-ports :
    (p : Option Protocol) (o : Option PortRange)
    → Holds (λ ws. ws ≡ port_words (port_of o)) (port_args p o)
unfolding port_args
words-ports p none = refl
words-ports none (some r) = tt
words-ports (some tcp) (some r) = words-port r
words-ports (some udp) (some r) = words-port r
words-ports (some icmp) (some r) = tt
words-ports (some icmpv6) (some r) = tt

pub words-target : (a : AclAction) → "-j" ∷ target_of a ∷ [] ≡ jump a
unfolding target_of
words-target allow = refl
words-target deny = refl
words-target reject = refl

abbrev pub options_of : FilterRule → Option String → Option String → Option PortRange → Options
options_of r s d o = record {
  source = source_of s r.exclude_sources;
  destination = d;
  protocol = r.protocol;
  ports = port_of o;
}

-- The words of a row are those of its options.
pub words-rule_row :
    (r : FilterRule) (s d : Option String) (o : Option PortRange) (ports : List String)
    → IsSingle s r.exclude_sources
    → ports ≡ port_words (port_of o)
    → (rule_row r s d ports).args ≡ rule_words (options_of r s d o) r.action
unfolding rule_row
words-rule_row r s d o ports single h =
    words-source s r.exclude_sources _ single
    ∙ ap (λ l. source_words (source_of s r.exclude_sources) ++ l)
        (words-destination d _
          ∙ ap (λ l. destination_words d ++ l)
              (ap₂ ◌++◌ (words-protocol r.protocol) (ap₂ ◌++◌ h (words-target r.action))))

pub is_tool : (f g : Family) → str_eq (binary_of g) (tool f) ≡ same_family g f
unfolding binary_of
is_tool ipv4 ipv4 = refl
is_tool ipv4 ipv6 = refl
is_tool ipv6 ipv4 = refl
is_tool ipv6 ipv6 = refl

pub is_hook : (d e : Direction) → str_eq (chain_of e) (hook d) ≡ same_direction e d
unfolding chain_of
is_hook input input = refl
is_hook input output = refl
is_hook input forward = refl
is_hook output input = refl
is_hook output output = refl
is_hook output forward = refl
is_hook forward input = refl
is_hook forward output = refl
is_hook forward forward = refl

pub is_in-chain :
    (f g : Family) (d e : Direction) (args : List String)
    → is_in f d (record { binary = binary_of g; table = "filter"; chain = chain_of e; args = args })
      ≡ (same_family g f && same_direction e d)
is_in-chain f g d e args = ap₂ (λ a b. a && b) (is_tool f g) (is_hook d e)
