-- ===== src/Apply/Skips.antt =====
-- Which units of a plan are skipped (fabric/services/apply.py), against a description that has no
-- record of failures: a unit of a create is skipped when it needs one that failed before.
use ovn_fabric.Prelude.{
  String, ◌≡◌, refl, sym, ap, ◌∙◌, Bool, true, false, ◌||◌, ◌&&◌, List, [], ◌∷◌, ◌++◌, any,
  any-append, lookup, set_default, lookup-insert, is_some, Bool-cases, inl, inr, append_assoc,
  append-nil, str_eq, if◌then◌else◌, arith, eq_iff,
}
use ovn_fabric.Apply.{
  WorkUnit, Failed, blocks, add, ApplyUnit, Executor, Loop, start, skip, settle, step, run_units,
  is_failed, Reply, error_res, exec_res, skipped, done,
}
use ovn_fabric.Apply.Failures.{scope_of, is_foundation}

-- A unit needs the ones of the foundation, and the ones of its own scope.
abbrev pub needs : WorkUnit → WorkUnit → Bool
needs u v = is_foundation (scope_of v) || str_eq (scope_of v) (scope_of u)

is_some-set_default :
    (k j v : String) (d : List (String × String))
    → is_some (lookup j (set_default k v d)) ≡ (is_some (lookup j d) || str_eq k j)
unfolding set_default
is_some-set_default k j v d = ground (arith, lookup-insert j k v d, eq_iff k j)

blocks-add : (f : Failed) (v u : WorkUnit) → blocks (add f v) u ≡ (blocks f u || needs u v)
unfolding blocks add
blocks-add f v u = ground (arith, is_some-set_default (scope_of v) (scope_of u) v.name f.scopes)

abbrev pub is_skipped : ApplyUnit → Bool
is_skipped r = elim r.state [ skipped ↦ true | _ ↦ false ]

abbrev pub is_done : ApplyUnit → Bool
is_done r = elim r.state [ done ↦ true | _ ↦ false ]

-- The failed units, after one more unit and its result.
abbrev pub with_result : List WorkUnit → WorkUnit → ApplyUnit → List WorkUnit
with_result bad u r = if is_failed r then bad ++ (u ∷ []) else bad

-- One result for each unit, in the units' order, where the units `bad` failed before.
unfoldable pub Verdicts : Bool → List WorkUnit → List WorkUnit → List ApplyUnit → Type 0
Verdicts creating bad [] [] = Unit
Verdicts creating bad (u ∷ us) (r ∷ rs) =
    (r.name ≡ u.name)
    × (is_skipped r ≡ (creating && any (needs u) bad))
    × Verdicts creating (with_result bad u r) us rs
Verdicts creating bad _ _ = ⊥

-- The units whose result says that they were not skipped.
unfoldable pub not_skipped : List WorkUnit → List ApplyUnit → List WorkUnit
not_skipped (u ∷ us) (r ∷ rs) =
    let rest = not_skipped us rs in if is_skipped r then rest else u ∷ rest
not_skipped _ _ = []

-- The failures recorded stand for the units `bad`.
Stands : List WorkUnit → Failed → Type 0
Stands bad f = (v : WorkUnit) → blocks f v ≡ any (needs v) bad

-- What one unit does to the loop.
record Settled (creating : Bool) (u : WorkUnit) (s t : Loop) : Type 0 where
  result : ApplyUnit
  results : t.results ≡ s.results ++ (result ∷ [])
  name : result.name ≡ u.name
  skips : is_skipped result ≡ (creating && blocks s.failures u)
  failures : t.failures ≡ (if is_failed result then add s.failures u else s.failures)
  executed : t.executed ≡ s.executed ++ (if is_skipped result then [] else u ∷ [])

settle-Settled :
    (creating : Bool) (u : WorkUnit) (a : Reply) (s : Loop)
    → (creating && blocks s.failures u) ≡ false
    → Settled creating u s (settle u a s)
unfolding settle
settle-Settled creating u (error_res message) s h = record {
  result = _;
  results = refl;
  name = refl;
  skips = sym h;
  failures = refl;
  executed = refl;
}
settle-Settled creating u (exec_res true message outputs) s h = record {
  result = _;
  results = refl;
  name = refl;
  skips = sym h;
  failures = refl;
  executed = refl;
}
settle-Settled creating u (exec_res false message outputs) s h = record {
  result = _;
  results = refl;
  name = refl;
  skips = sym h;
  failures = refl;
  executed = refl;
}

step-Settled :
    (executor : Executor) (creating : Bool) (u : WorkUnit) (s : Loop)
    → Settled creating u s (step executor creating u s)
unfolding step skip
step-Settled executor creating u s = elim (Bool-cases (creating && blocks s.failures u)) [
  | inl h ↦ rw h (record {
    result = _;
    results = refl;
    name = refl;
    skips = sym h;
    failures = refl;
    executed = sym (append-nil s.executed);
  })
  | inr h ↦ rw h (settle-Settled creating u (executor s.executed s.store u) s h)
]

Stands-with_result :
    (bad : List WorkUnit) (f : Failed) (u : WorkUnit) (r : ApplyUnit)
    → Stands bad f
    → Stands (with_result bad u r) (if is_failed r then add f u else f)
unfolding Stands
Stands-with_result bad f u r h v =
    ground (arith, h v, blocks-add f u v, any-append (needs v) bad (u ∷ []))

not_skipped_cons :
    (u : WorkUnit) (us : List WorkUnit) (r : ApplyUnit) (rs : List ApplyUnit)
    → not_skipped (u ∷ us) (r ∷ rs) ≡ (if is_skipped r then [] else u ∷ []) ++ not_skipped us rs
unfolding not_skipped
not_skipped_cons u us r rs = ground arith

run_units_from :
    (executor : Executor) (creating : Bool) (bad us : List WorkUnit) (s : Loop)
    → Stands bad s.failures
    → (rs : List ApplyUnit) × ((run_units executor creating us s).results ≡ s.results ++ rs)
      × ((run_units executor creating us s).executed ≡ s.executed ++ not_skipped us rs)
      × Verdicts creating bad us rs
unfolding run_units Verdicts not_skipped Stands
run_units_from executor creating bad [] s h =
    ([], sym (append-nil s.results), sym (append-nil s.executed), tt)
run_units_from executor creating bad (u ∷ us) s h =
    let now = step-Settled executor creating u s in
    let r = now.result in
    let still : Stands (with_result bad u r) (step executor creating u s).failures =
      rw now.failures (Stands-with_result bad s.failures u r h) in
    let ih =
      run_units_from executor creating (with_result bad u r) us (step executor creating u s)
        still in
    (
      r ∷ ih.0,
      ih.1 ∙ ap (λ l. l ++ ih.0) now.results ∙ append_assoc s.results (r ∷ []) ih.0,
      ih.2
          ∙ ap (λ l. l ++ not_skipped us ih.0) now.executed
          ∙ append_assoc s.executed (if is_skipped r then [] else u ∷ []) (not_skipped us ih.0)
          ∙ ap (λ l. s.executed ++ l) (sym (not_skipped_cons u us r ih.0)),
      (now.name, now.skips ∙ ap (λ b. creating && b) (h u), ih.3),
    )

-- The results of a plan are those of a list `rs` that has one result for each unit, in the plan's
-- order and under the unit's name; a unit of a create is skipped exactly when a unit that it needs
-- (one of the foundation, or of its own scope) failed before, and no unit of a delete ever is. The
-- units sent to the executor are exactly the others, in this order.
pub run_units-Verdicts :
    (executor : Executor) (creating : Bool) (us : List WorkUnit)
    → (rs : List ApplyUnit) × ((run_units executor creating us start).results ≡ rs)
      × ((run_units executor creating us start).executed ≡ not_skipped us rs)
      × Verdicts creating [] us rs
unfolding Stands blocks lookup
run_units-Verdicts executor creating us = run_units_from executor creating [] us start (λ v. refl)
