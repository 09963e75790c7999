-- ===== src/Waiter/Once.antt =====
-- When the action of a `DepWaiter` (deployer/jobtree.py) runs, and how often.
use ovn_fabric.Prelude.{
  suc, String, ◌≡◌, refl, sym, ap, ap₂, ◌∙◌, Bool, true, false, ◌&&◌, ◌||◌, Option, none, some,
  List, [], ◌∷◌, map, any, any-append, all, if◌then◌else◌, ◌+◌, Bool-cases, inl, inr, arith, eq_iff,
}
use ovn_fabric.Waiter.{
  Dep, DepKey, same_key, Event, event_key, holds, subset, DepWaiter, waiter, see, fire_if_ready,
  waitfor, waitfor_all, labelled, key, fire, same_value,
}

same_value-eq : (s t : Option String) → same_value s t ≡ true → s ≡ t
unfolding same_value
same_value-eq none none h = refl
same_value-eq none (some t) h = ground arith
same_value-eq (some s) none h = ground arith
same_value-eq (some s) (some t) h = ap some ((eq_iff s t).0 h)

same_value_refl : (s : Option String) → same_value s s ≡ true
unfolding same_value
same_value_refl none = refl
same_value_refl (some s) = (eq_iff s s).1 refl

same_key-eq : (a b : DepKey) → same_key a b ≡ true → a ≡ b
unfolding same_key
same_key-eq a b h =
    ap₂ labelled ((eq_iff a.tag b.tag).0 (ground arith))
      (same_value-eq a.value b.value (ground arith))

same_key_refl : (a : DepKey) → same_key a a ≡ true
unfolding same_key
same_key_refl a = ground (arith, eq_iff a.tag a.tag, same_value_refl a.value)

-- An event tells of a key.
abbrev pub tells : DepKey → Event → Bool
tells k e = elim (event_key e) [ none ↦ false | some j ↦ same_key j k ]

abbrev pub is_cons {ℓ} : {A : Type ℓ} → List A → Bool
is_cons [] = false
is_cons (x ∷ xs) = true

all-cong :
    (p q : DepKey → Bool) (ks : List DepKey)
    → ((k : DepKey) → holds ks k ≡ true → p k ≡ q k)
    → all p ks ≡ all q ks
unfolding holds
all-cong p q [] h = refl
all-cong p q (k ∷ ks) h =
    let ih = all-cong p q ks (λ j m. h j (ground arith)) in
    ground (arith, ih, h k (ground (arith, same_key_refl k)))

-- What is seen after a key is.
holds-see :
    (o : Option DepKey) (w : DepWaiter) (k : DepKey)
    → holds w.dependencies k ≡ true
    → holds (see o w).seen k ≡ (holds w.seen k || elim o [ none ↦ false | some j ↦ same_key j k ])
unfolding holds see
holds-see none w k h = ground arith
holds-see (some j) w k h =
    let alike : same_key j k ≡ true → holds w.dependencies j ≡ true =
      λ m. ap (holds w.dependencies) (same_key-eq j k m) ∙ h in
    let held : same_key j k ≡ true → holds w.seen j ≡ holds w.seen k =
      λ m. ap (holds w.seen) (same_key-eq j k m) in
    ground (arith, any-append (λ i. same_key i k) w.seen (j ∷ []), alike, held)

waitfor_fired : (e : Event) (w : DepWaiter) → w.fired ≡ true → waitfor e w ≡ w
unfolding waitfor
waitfor_fired e w h = simp h

waitfor_all_fired : (es : List Event) (w : DepWaiter) → w.fired ≡ true → waitfor_all es w ≡ w
unfolding waitfor_all
waitfor_all_fired [] w h = refl
waitfor_all_fired (e ∷ es) w h =
    let same = waitfor_fired e w h in ap (waitfor_all es) same ∙ waitfor_all_fired es w h

-- A key is seen already, or one of the events tells of it.
abbrev pub known : DepWaiter → List Event → DepKey → Bool
known w es k = holds w.seen k || any (tells k) es

see-keeps :
    (o : Option DepKey) (w : DepWaiter)
    → ((see o w).dependencies ≡ w.dependencies)
      × ((see o w).fired ≡ w.fired)
      × ((see o w).actions ≡ w.actions)
unfolding see
see-keeps o w = ground arith

-- The outcome of the events `es` for a waiter that has not run its action.
record Outcome (w : DepWaiter) (es : List Event) (t : DepWaiter) : Type 0 where
  fired : t.fired ≡ (is_cons es && all (known w es) w.dependencies)
  actions : t.actions ≡ w.actions + (if t.fired then 1 else 0)

-- A ready waiter stays ready.
all_mono :
    (p q : DepKey → Bool) (ks : List DepKey)
    → ((k : DepKey) → p k ≡ true → q k ≡ true)
    → all p ks ≡ true
    → all q ks ≡ true
all_mono p q [] h k = refl
all_mono p q (j ∷ ks) h k = ground (arith, all_mono p q ks h, h j)

subset-known : (w : DepWaiter) → subset w.dependencies w.seen ≡ all (known w []) w.dependencies
unfolding subset
subset-known w = all-cong _ _ w.dependencies (λ k m. ground arith)

-- To see an event's key makes up for the event.
known-see :
    (e : Event) (es : List Event) (w : DepWaiter)
    → all (known (see (event_key e) w) es) (see (event_key e) w).dependencies
      ≡ all (known w (e ∷ es)) w.dependencies
known-see e es w =
    ap (all (known (see (event_key e) w) es)) (see-keeps (event_key e) w).0
    ∙ all-cong _ _ w.dependencies (λ k m. ground (arith, holds-see (event_key e) w k m))

known_mono :
    (es : List Event) (w : DepWaiter)
    → all (known w []) w.dependencies ≡ true
    → all (known w es) w.dependencies ≡ true
known_mono es w = all_mono (known w []) (known w es) w.dependencies (λ k m. ground arith)

-- A waiter that has just run its action.
Outcome-fired :
    (w v : DepWaiter) (e : Event) (es : List Event)
    → v.fired ≡ true
    → v.actions ≡ suc w.actions
    → all (known w (e ∷ es)) w.dependencies ≡ true
    → Outcome w (e ∷ es) (waitfor_all es v)
Outcome-fired w v e es f a k =
    let same = waitfor_all_fired es v f in
    rw same (record { fired = ground (arith, f, k); actions = ground (arith, f, a) })

-- One event, before the action ran.
waitfor_lem :
    (e : Event) (w : DepWaiter)
    → w.fired ≡ false
    → waitfor e w
      ≡ (if all (known w []) w.dependencies then fire w else fire_if_ready (see (event_key e) w))
unfolding waitfor
waitfor_lem e w h = ground (arith, h, subset-known w)

-- The rest of the events, for a waiter that saw the first one's key and is not ready.
Outcome-seen :
    (e : Event) (es : List Event) (w : DepWaiter)
    → subset (see (event_key e) w).dependencies (see (event_key e) w).seen ≡ false
    → Outcome (see (event_key e) w) es (waitfor_all es (see (event_key e) w))
    → Outcome w (e ∷ es) (waitfor_all es (see (event_key e) w))
Outcome-seen e [] w waits r = record {
  fired = r.fired ∙ sym waits ∙ subset-known (see (event_key e) w) ∙ known-see e [] w;
  actions = ground (arith, r.actions, see-keeps (event_key e) w);
}
Outcome-seen e (f ∷ es) w waits r = record {
  fired = r.fired ∙ known-see e (f ∷ es) w;
  actions = ground (arith, r.actions, see-keeps (event_key e) w);
}

-- The rest of the events, for a waiter that saw the first one's key and may be ready.
Outcome-fire_if_ready :
    (e : Event) (es : List Event) (w : DepWaiter)
    → w.fired ≡ false
    → ((v : DepWaiter) → v.fired ≡ false → Outcome v es (waitfor_all es v))
    → Outcome w (e ∷ es) (waitfor_all es (fire_if_ready (see (event_key e) w)))
unfolding fire_if_ready fire
Outcome-fire_if_ready e es w h rest =
    let v : DepWaiter = see (event_key e) w in
    let keeps = see-keeps (event_key e) w in
    elim (Bool-cases (subset v.dependencies v.seen)) [
      | inl ready ↦
          let all_known = sym (known-see e es w) ∙ known_mono es v (sym (subset-known v) ∙ ready) in
          let one : fire_if_ready v ≡ fire v = ap (λ b. if b then fire v else v) ready in
          rw one (Outcome-fired w (fire v) e es refl (ap suc (keeps.2)) all_known)
      | inr waits ↦
          let one : fire_if_ready v ≡ v = ap (λ b. if b then fire v else v) waits in
          rw one (Outcome-seen e es w waits (rest v (keeps.1 ∙ h)))
    ]

waitfor_all_from :
    (es : List Event) (w : DepWaiter) → w.fired ≡ false → Outcome w es (waitfor_all es w)
unfolding waitfor_all fire
waitfor_all_from [] w h = record { fired = h; actions = ground (arith, h) }
waitfor_all_from (e ∷ es) w h = elim (Bool-cases (all (known w []) w.dependencies)) [
  | inl ready ↦
      let one =
        waitfor_lem e w h
        ∙ ap (λ b. if b then fire w else fire_if_ready (see (event_key e) w)) ready in
      rw one (Outcome-fired w (fire w) e es refl refl (known_mono (e ∷ es) w ready))
  | inr waits ↦
      let one =
        waitfor_lem e w h
        ∙ ap (λ b. if b then fire w else fire_if_ready (see (event_key e) w)) waits in
      rw one (Outcome-fire_if_ready e es w h (waitfor_all_from es))
]

-- After the events `es` of a job, its action has run exactly when there was an event and each of
-- the dependencies has the key of one of the events (at the latest at the event that completed
-- them), and it has run once then and never otherwise.
pub waitfor_all-fired :
    (deps : List Dep) (es : List Event)
    → ((waitfor_all es (waiter deps)).fired
        ≡ (is_cons es && all (λ k. any (tells k) es) (map key deps)))
      × ((waitfor_all es (waiter deps)).actions
          ≡ (if is_cons es && all (λ k. any (tells k) es) (map key deps) then 1 else 0))
unfolding waiter holds
waitfor_all-fired deps es =
    let r = waitfor_all_from es (waiter deps) refl in (r.fired, ground (arith, r.actions, r.fired))
