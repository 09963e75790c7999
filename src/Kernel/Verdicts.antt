-- ===== src/Kernel/Verdicts.antt =====
-- The rules of a security group in a network namespace (deployer/ir_common.py,
-- `_emit_security_group_rules`) do what the group asks for.
use ovn_fabric.Prelude.{
  String, ◌≡◌, refl, sym, ap, ap₂, ◌∙◌, Bool, true, false, not, ◌&&◌, ◌||◌, Option, none, some,
  List, [], ◌∷◌, ◌++◌, append_assoc, map, any, ◌==◌, arith, Bool-cases, inl, inr, All,
  if◌then◌else◌,
}
use ovn_fabric.Plan.Calls.{Outcome, done, failed, ◌>>=◌}
use ovn_fabric.Plan.Discipline.{Holds}
use ovn_fabric.Cluster.Kept.{Holds->>=}
use ovn_fabric.Cluster.Nodes.{Direction, AclAction, Family, PortRange, FilterRule}
use ovn_fabric.Kernel.Filters.{
  Row, choices, port_args, rule_row, port_rows, destination_rows, source_rows,
}
use ovn_fabric.Kernel.Iptables.{
  Packets, Netfilter, port_words, meets_protocol, meets_port, meets_source, meets_destination,
  meets, is_in,
}
use ovn_fabric.Kernel.Policy.{one_of, ◌or_else◌, if_so, is_about, is_within, admits}
use ovn_fabric.Kernel.Rows.{
  IsSingle, opt, source_of, port_of, options_of, words-ports, words-rule_row, is_in-chain,
}

or_else_assoc : (u v w : Option AclAction) → (u or_else v) or_else w ≡ u or_else (v or_else w)
or_else_assoc none v w = refl
or_else_assoc (some a) v w = refl

pub or_else-if_so : (b c : Bool) (a : AclAction) → if_so b a or_else if_so c a ≡ if_so (b || c) a
or_else-if_so true c a = refl
or_else-if_so false c a = refl

pub if-or_else :
    (b : Bool) (a : AclAction) (v : Option AclAction)
    → (if b then some a else v) ≡ if_so b a or_else v
if-or_else true a v = refl
if-or_else false a v = refl

any-map-some : {A : Type 0} (t : A → Bool) (xs : List A) → any (opt t) (map some xs) ≡ any t xs
any-map-some t [] = refl
any-map-some t (x ∷ xs) = ap (λ b. t x || b) (any-map-some t xs)

any-choices : {A : Type 0} (t : A → Bool) (xs : List A) → any (opt t) (choices xs) ≡ one_of t xs
any-choices t [] = refl
any-choices t (x ∷ xs) = any-map-some t (x ∷ xs)

module _ {Packet : Type 0} {q : Packets Packet} (n : Netfilter q) (f : Family) (d : Direction)
    (p : Packet) where
  -- In front of any rows, these decide first.
  abbrev pub Say : Option AclAction → List Row → Type 0
  Say v rows = (rest : List Row) → n.verdict f d (rows ++ rest) p ≡ v or_else n.verdict f d rest p

  pub Say-nil : Say none []
  Say-nil rest = refl

  pub Say-append :
      (u v : Option AclAction) (xs ys : List Row)
      → Say u xs
      → Say v ys
      → Say (u or_else v) (xs ++ ys)
  Say-append u v xs ys h k rest =
      ap (λ l. n.verdict f d l p) (append_assoc xs ys rest)
      ∙ h (ys ++ rest)
      ∙ ap (λ w. u or_else w) (k rest)
      ∙ sym (or_else_assoc u v (n.verdict f d rest p))

  pub Say-eq : (u v : Option AclAction) (xs : List Row) → u ≡ v → Say u xs → Say v xs
  Say-eq u v xs e h rest = h rest ∙ ap (λ w. w or_else n.verdict f d rest p) e

  pub Holds-Say-eq :
      (u v : Option AclAction) (o : Outcome (List Row)) → u ≡ v → Holds (Say u) o → Holds (Say v) o
  Holds-Say-eq u v (failed x) e h = tt
  Holds-Say-eq u v (done xs) e h = Say-eq u v xs e h

  meets_port-of : (o : Option PortRange) → meets_port q (port_of o) p ≡ opt (is_within q p) o
  meets_port-of none = refl
  meets_port-of (some r) = elim (Bool-cases (r.first == r.last)) [
    | inl e ↦ ground (arith, e)
    | inr e ↦ ground (arith, e)
  ]

  meets_source-of :
      (s : Option String) (xs : List String)
      → IsSingle s xs
      → meets_source q (source_of s xs) p
        ≡ (opt (λ x. q.comes_from x p) s && not (any (λ x. q.comes_from x p) xs))
  meets_source-of none [] h = refl
  meets_source-of none (x ∷ []) h = ground arith
  meets_source-of none (x ∷ (_ ∷ _)) h = elim h [ ]
  meets_source-of (some s) [] h = ground arith
  meets_source-of (some s) (x ∷ _) h = elim h [ ]

  -- A row that decides, when it is in the chain, for the packets with some property.
  pub Say-one :
      (r : Row) (about b : Bool) (a : AclAction)
      → is_in f d r ≡ about
      → (is_in f d r ≡ true
          → (rest : List Row)
          → n.verdict f d (r ∷ rest) p ≡ (if b then some a else n.verdict f d rest p))
      → Say (if_so (about && b) a) (r ∷ [])
  Say-one r true b a e h rest = h e rest ∙ if-or_else b a (n.verdict f d rest p)
  Say-one r false b a e h rest = n.verdict_other f d r rest p e

  -- A row of one source, one destination and one range of ports.
  Say-rule_row :
      (r : FilterRule) (s t : Option String) (o : Option PortRange) (ports : List String)
      → IsSingle s r.exclude_sources
      → ports ≡ port_words (port_of o)
      → Say
          (if_so (is_about f d r && meets q (options_of r s t o) p) r.action)
          (rule_row r s t ports ∷ [])
  unfolding rule_row
  Say-rule_row r s t o ports single e =
      Say-one (rule_row r s t ports) (is_about f d r) (meets q (options_of r s t o) p) r.action
        (is_in-chain f r.family d r.direction (rule_row r s t ports).args)
        (λ in_chain rest.
          n.verdict_rule f d (rule_row r s t ports) (options_of r s t o) r.action rest p in_chain
            (words-rule_row r s t o ports single e))

  -- What is asked of a packet by the choices of sources, destinations and ports.
  abbrev asks : FilterRule → (sources targets ports : Bool) → Bool
  asks r a b c =
      is_about f d r
      && ((a && not (any (λ x. q.comes_from x p) r.exclude_sources))
          && (b && (meets_protocol q r.protocol p && c)))

  abbrev source_ok : Option String → Bool
  source_ok = opt (λ x. q.comes_from x p)

  abbrev target_ok : Option String → Bool
  target_ok = opt (λ x. q.goes_to x p)

  abbrev port_ok : Option PortRange → Bool
  port_ok = opt (is_within q p)

  meets_destination-opt : (t : Option String) → meets_destination q t p ≡ target_ok t
  meets_destination-opt none = refl
  meets_destination-opt (some t) = refl

  Say-choice :
      (r : FilterRule) (s t : Option String) (o : Option PortRange) (ports : List String)
      → IsSingle s r.exclude_sources
      → ports ≡ port_words (port_of o)
      → Say
          (if_so (asks r (source_ok s) (target_ok t) (port_ok o)) r.action)
          (rule_row r s t ports ∷ [])
  Say-choice r s t o ports single e =
      Say-eq _ _ (rule_row r s t ports ∷ [])
        (ap (λ b. if_so (is_about f d r && b) r.action)
          (ap₂ (λ a b. a && b) (meets_source-of s r.exclude_sources single)
            (ap₂ (λ a b. a && (meets_protocol q r.protocol p && b)) (meets_destination-opt t)
              (meets_port-of o))))
        (Say-rule_row r s t o ports single e)

  -- One more choice.
  Say-more :
      (b c e : Bool) (a : AclAction) (xs : List Row) (rest : Outcome (List Row))
      → (b || c) ≡ e
      → Say (if_so b a) xs
      → Holds (Say (if_so c a)) rest
      → Holds (Say (if_so e a)) (rest >>= λ ys. done (xs ++ ys))
  Say-more b c e a xs (failed x) h k l = tt
  Say-more b c e a xs (done ys) h k l =
      Say-eq (if_so b a or_else if_so c a) (if_so e a) (xs ++ ys)
        (or_else-if_so b c a ∙ ap (λ z. if_so z a) h) (Say-append (if_so b a) (if_so c a) xs ys k l)

  nothing_asked : (b : Bool) (a : AclAction) → b ≡ false → Say (if_so b a) []
  nothing_asked b a e = Say-eq none (if_so b a) [] (ap (λ z. if_so z a) (sym e)) Say-nil

  Say-port_rows :
      (r : FilterRule) (s t : Option String) (os : List (Option PortRange))
      → IsSingle s r.exclude_sources
      → Holds
          (Say (if_so (asks r (source_ok s) (target_ok t) (any port_ok os)) r.action))
          (port_rows r s t os)
  unfolding port_rows
  Say-port_rows r s t [] single = nothing_asked _ r.action (ground arith)
  Say-port_rows r s t (o ∷ os) single =
      Holds->>= _ _ (port_args r.protocol o) _ (words-ports r.protocol o) (λ ports e.
        Say-more (asks r (source_ok s) (target_ok t) (port_ok o)) _ _ r.action
          (rule_row r s t ports ∷ []) (port_rows r s t os) (ground arith)
          (Say-choice r s t o ports single e) (Say-port_rows r s t os single))

  Say-destination_rows :
      (r : FilterRule) (s : Option String) (ts : List (Option String))
      → IsSingle s r.exclude_sources
      → Holds
          (Say (
            if_so
              (asks r (source_ok s) (any target_ok ts) (one_of (is_within q p) r.ports))
              r.action))
          (destination_rows r s ts)
  unfolding destination_rows
  Say-destination_rows r s [] single = nothing_asked _ r.action (ground arith)
  Say-destination_rows r s (t ∷ ts) single =
      Holds->>= _ _ (port_rows r s t (choices r.ports)) _
        (Say-port_rows r s t (choices r.ports) single)
        (λ xs h.
          Say-more (asks r (source_ok s) (target_ok t) (any port_ok (choices r.ports))) _ _ r.action
            xs (destination_rows r s ts) (ground (arith, any-choices (is_within q p) r.ports)) h
            (Say-destination_rows r s ts single))

  Say-source_rows :
      (r : FilterRule) (ss : List (Option String))
      → All (λ s. IsSingle s r.exclude_sources) ss
      → Holds
          (Say (
            if_so
              (asks r
                (any source_ok ss)
                (one_of (λ x. q.goes_to x p) r.destinations)
                (one_of (is_within q p) r.ports))
              r.action))
          (source_rows r ss)
  unfolding source_rows
  Say-source_rows r [] single = nothing_asked _ r.action (ground arith)
  Say-source_rows r (s ∷ ss) single =
      Holds->>= _ _ (destination_rows r s (choices r.destinations)) _
        (Say-destination_rows r s (choices r.destinations) single.0)
        (λ xs h.
          Say-more
            (asks r (source_ok s) (any target_ok (choices r.destinations))
              (one_of (is_within q p) r.ports))
            _ _ r.action xs (source_rows r ss)
            (ground (arith, any-choices (λ x. q.goes_to x p) r.destinations)) h
            (Say-source_rows r ss single.1))

  -- The rows of a filter rule.
  pub Say-filter_rule :
      (r : FilterRule)
      → All (λ s. IsSingle s r.exclude_sources) (choices r.sources)
      → Holds
          (Say (if_so (is_about f d r && admits q r p) r.action))
          (source_rows r (choices r.sources))
  Say-filter_rule r single =
      Holds-Say-eq _ _ (source_rows r (choices r.sources))
        (ap (λ b. if_so b r.action) (ground (arith, any-choices (λ x. q.comes_from x p) r.sources)))
        (Say-source_rows r (choices r.sources) single)
