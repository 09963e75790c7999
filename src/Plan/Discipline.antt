-- ===== src/Plan/Discipline.antt =====
-- The discipline of a plan's units (fabric/plan.py): operations are declared on the newest unit.
use ovn_fabric.Prelude.{
  ℕ, suc, ◌+◌, String, ◌≡◌, refl, sym, ap, ◌∙◌, Bool, true, false, Option, none, some, List, [],
  ◌∷◌, ◌++◌, map, length, length-append, ◌==◌, if◌then◌else◌, arith, lookup,
}
use ovn_fabric.Value.{Value, RuntimeRef}
use ovn_fabric.Primitives.Ovn.Kinds.{lrp}
use ovn_fabric.Lifecycle.{Operation, primitive, symlink_netns}
use ovn_fabric.Primitives.Ovn.{OvnObject, ovn_primitive}
use ovn_fabric.Units.Steps.{Step, to_step}
use ovn_fabric.Plan.Calls.{
  PlanFault, outside_unit, late_unit, Outcome, done, failed, ◌>>=◌, Declared, object, pinned_lrp,
  Call, unit, ovn, wait_capture, keyed_unit, does, capture_value, netns_symlink, opens, Emission,
  nothing, refuses, opening, capturing, ◌then_emit◌, for_each, given,
}
use ovn_fabric.Plan.Units.{
  Plan, WorkUnit, serialized, append_step, newest_name, add_step, call_plan, run_calls,
  resolve_declared, resolve_name, named_ref, named_value, new_unit, pid_of,
}

-- Where `n` units are open, every operation of the calls is declared on the newest.
abbrev pub IsOrderly : ℕ → List Call → Type 0
IsOrderly n [] = Unit
IsOrderly n (unit kind subject ∷ cs) = IsOrderly (suc n) cs
IsOrderly n (ovn on d ∷ cs) = ((m : ℕ) × (on ≡ some m) × (suc m ≡ n)) × IsOrderly n cs
IsOrderly n (wait_capture on var argv ∷ cs) =
    ((m : ℕ) × (on ≡ some m) × (suc m ≡ n)) × IsOrderly n cs
IsOrderly n (keyed_unit kind subject key ∷ cs) = IsOrderly (suc n) cs
IsOrderly n (does on op ∷ cs) = ((m : ℕ) × (on ≡ some m) × (suc m ≡ n)) × IsOrderly n cs
IsOrderly n (capture_value on var argv ∷ cs) =
    ((m : ℕ) × (on ≡ some m) × (suc m ≡ n)) × IsOrderly n cs
IsOrderly n (netns_symlink on container pid_var ∷ cs) =
    ((m : ℕ) × (on ≡ some m) × (suc m ≡ n)) × IsOrderly n cs

-- What holds of what an outcome has.
abbrev pub Holds : {A : Type 0} → (A → Type 0) → Outcome A → Type 0
Holds P (done a) = P a
Holds P (failed e) = Unit

-- The declaration is orderly, however many units are open before it.
abbrev pub IsOrderlyEmission : Emission → Type 0
IsOrderlyEmission e = (n : ℕ) → Holds (IsOrderly n) (e n)

pub IsOrderly-eq : {m n : ℕ} (cs : List Call) → m ≡ n → IsOrderly m cs → IsOrderly n cs
IsOrderly-eq cs e h = rw (sym e) h

pub IsOrderly-append :
    (n : ℕ) (xs ys : List Call)
    → IsOrderly n xs
    → IsOrderly (n + opens xs) ys
    → IsOrderly n (xs ++ ys)
unfolding opens
IsOrderly-append n [] ys h k = IsOrderly-eq ys (omega arith) k
IsOrderly-append n (unit kind subject ∷ xs) ys h k =
    IsOrderly-append (suc n) xs ys h (IsOrderly-eq ys (omega arith) k)
IsOrderly-append n (ovn on d ∷ xs) ys (p, h) k = (p, IsOrderly-append n xs ys h k)
IsOrderly-append n (wait_capture on var argv ∷ xs) ys (p, h) k = (p, IsOrderly-append n xs ys h k)
IsOrderly-append n (keyed_unit kind subject key ∷ xs) ys h k =
    IsOrderly-append (suc n) xs ys h (IsOrderly-eq ys (omega arith) k)
IsOrderly-append n (does on op ∷ xs) ys (p, h) k = (p, IsOrderly-append n xs ys h k)
IsOrderly-append n (capture_value on var argv ∷ xs) ys (p, h) k = (p, IsOrderly-append n xs ys h k)
IsOrderly-append n (netns_symlink on container pid_var ∷ xs) ys (p, h) k =
    (p, IsOrderly-append n xs ys h k)

module _ (n : ℕ) where
  IsOrderly-declared : (ds : List Declared) → IsOrderly (suc n) (map (ovn (some n)) ds)
  IsOrderly-declared [] = tt
  IsOrderly-declared (d ∷ ds) = ((n, refl, refl), IsOrderly-declared ds)

pub opening-IsOrderly :
    (kind : String) (subject : Option String) (ds : List Declared)
    → IsOrderlyEmission (opening kind subject ds)
unfolding opening
opening-IsOrderly kind subject ds n = IsOrderly-declared n ds

pub capturing-IsOrderly :
    (kind : String) (subject : Option String) (var : String) (argv : List String)
    → IsOrderlyEmission (capturing kind subject var argv)
unfolding capturing
capturing-IsOrderly kind subject var argv n = ((n, refl, refl), tt)

pub nothing-IsOrderly : IsOrderlyEmission nothing
unfolding nothing
nothing-IsOrderly n = tt

module _ (e f : Emission) where
  joined :
      (n : ℕ) (o : Outcome (List Call))
      → Holds (IsOrderly n) o
      → IsOrderlyEmission f
      → Holds (IsOrderly n) (o >>= λ xs. f (n + opens xs) >>= λ ys. done (xs ++ ys))
  joined n (failed x) h k = tt
  joined n (done xs) h k = after (f (n + opens xs)) (k (n + opens xs))
    where
      after :
          (o : Outcome (List Call))
          → Holds (IsOrderly (n + opens xs)) o
          → Holds (IsOrderly n) (o >>= λ ys. done (xs ++ ys))
      after (failed x) j = tt
      after (done ys) j = IsOrderly-append n xs ys h j

  pub then_emit-IsOrderly :
      IsOrderlyEmission e → IsOrderlyEmission f → IsOrderlyEmission (e then_emit f)
  unfolding ◌then_emit◌
  then_emit-IsOrderly h k n = joined n (e n) (h n) k

module _ {A : Type 0} where
  pub for_each-IsOrderly :
      (xs : List A) (f : A → Emission)
      → ((x : A) → IsOrderlyEmission (f x))
      → IsOrderlyEmission (for_each xs f)
  unfolding for_each
  for_each-IsOrderly [] f h = nothing-IsOrderly
  for_each-IsOrderly (x ∷ xs) f h = then_emit-IsOrderly _ _ (h x) (for_each-IsOrderly xs f h)

  pub given-IsOrderly :
      (o : Outcome A) (f : A → Emission)
      → ((x : A) → IsOrderlyEmission (f x))
      → IsOrderlyEmission (given o f)
  unfolding given refuses
  given-IsOrderly (done a) f h = h a
  given-IsOrderly (failed e) f h = λ n. tt

-- The faults of an operation that is not on the newest unit.
abbrev pub is_misplaced : PlanFault → Bool
is_misplaced outside_unit = true
is_misplaced (late_unit newest) = true
is_misplaced _ = false

-- A plan with `n` units, or a fault of another kind.
abbrev pub IsPlanned : ℕ → Outcome Plan → Type 0
IsPlanned n (done p) = length p.units ≡ n
IsPlanned n (failed e) = is_misplaced e ≡ false

abbrev IsPlacedWell : {A : Type 0} → Outcome A → Type 0
IsPlacedWell (done a) = Unit
IsPlacedWell (failed e) = is_misplaced e ≡ false

pub IsPlanned-eq : {m n : ℕ} (o : Outcome Plan) → m ≡ n → IsPlanned m o → IsPlanned n o
IsPlanned-eq o e h = rw (sym e) h

pub length-append_step : (s : Step) (us : List WorkUnit) → length (append_step s us) ≡ length us
unfolding append_step
length-append_step s [] = refl
length-append_step s (u ∷ []) = refl
length-append_step s (u ∷ v ∷ us) = ap suc (length-append_step s (v ∷ us))

module _ (n : ℕ) where
  kept :
      (b : Bool) (q : Plan) (e : PlanFault)
      → b ≡ true
      → length q.units ≡ n
      → IsPlanned n (if b then done q else failed e)
  kept true q e h l = l
  kept false q e h l = absurd (ground (arith, h))

  add_step-IsPlanned :
      (m : ℕ) (op : Operation) (p : Plan)
      → length p.units ≡ n
      → suc m ≡ n
      → IsPlanned n (add_step (some m) op p)
  unfolding add_step serialized
  add_step-IsPlanned m op p l e = added (to_step op)
    where
      same : (suc m == length p.units) ≡ true
      same = ground (arith, l, e)

      added :
          (o : Option Step)
          → IsPlanned n (
              serialized o >>= λ s.
              if suc m == length p.units
              then done (record p { units = append_step s p.units })
              else failed (late_unit (newest_name p.units)))
      added none = refl
      added (some s) =
          kept (suc m == length p.units) (record p { units = append_step s p.units })
            (late_unit (newest_name p.units)) same (length-append_step s p.units ∙ l)

  resolved-IsPlanned :
      (o : Outcome OvnObject) (m : ℕ) (p : Plan)
      → IsPlacedWell o
      → length p.units ≡ n
      → suc m ≡ n
      → IsPlanned n (o >>= λ x. add_step (some m) (primitive (ovn_primitive x)) p)
  resolved-IsPlanned (done x) m p h l e = add_step-IsPlanned m (primitive (ovn_primitive x)) p l e
  resolved-IsPlanned (failed f) m p h l e = h

resolve_name-IsPlacedWell : (p : Plan) (name : String) → IsPlacedWell (resolve_name p name)
unfolding resolve_name named_value named_ref
resolve_name-IsPlacedWell p name = in_values (lookup name p.values) (lookup name p.refs)
  where
    in_refs : (o : Option RuntimeRef) → IsPlacedWell (named_ref name o)
    in_refs none = refl
    in_refs (some r) = tt

    in_values :
        (v : Option Value) (o : Option RuntimeRef) → IsPlacedWell (named_value v (named_ref name o))
    in_values none o = in_refs o
    in_values (some v) o = tt

resolve_declared-IsPlacedWell : (p : Plan) (d : Declared) → IsPlacedWell (resolve_declared p d)
unfolding resolve_declared
resolve_declared-IsPlacedWell p (object x) = tt
resolve_declared-IsPlacedWell p (pinned_lrp router name mac networks chassis ra) =
    pinned (resolve_name p chassis) (resolve_name-IsPlacedWell p chassis)
  where
    pinned :
        (o : Outcome Value)
        → IsPlacedWell o
        → IsPlacedWell (o >>= λ v. done (lrp router name mac networks (some v) ra))
    pinned (done v) h = tt
    pinned (failed e) h = h

symlink-IsPlanned :
    (n : ℕ) (container : String) (m : ℕ) (p : Plan) (o : Option RuntimeRef) (var : String)
    → length p.units ≡ n
    → suc m ≡ n
    → IsPlanned n (pid_of var o >>= λ pid. add_step (some m) (symlink_netns container pid) p)
unfolding pid_of
symlink-IsPlanned n container m p none var l e = refl
symlink-IsPlanned n container m p (some r) var l e = add_step-IsPlanned n m _ p l e

-- The rest of the calls, after the first.
module _ (n : ℕ) (cs : List Call) where
  rest-IsPlanned :
      (k : ℕ) (o : Outcome Plan)
      → IsPlanned k o
      → ((q : Plan) → length q.units ≡ k → IsPlanned n (run_calls cs q))
      → IsPlanned n (o >>= λ q. run_calls cs q)
  rest-IsPlanned k (done q) h f = f q h
  rest-IsPlanned k (failed e) h f = h

-- Orderly calls put each operation into a unit, or fail for another reason.
pub run_calls-IsPlanned :
    (cs : List Call) (n : ℕ) (p : Plan)
    → IsOrderly n cs
    → length p.units ≡ n
    → IsPlanned (n + opens cs) (run_calls cs p)
unfolding run_calls call_plan opens
run_calls-IsPlanned [] n p h l = omega (arith, l)
run_calls-IsPlanned (unit kind subject ∷ cs) n p h l = IsPlanned-eq _ (omega arith) (
    run_calls-IsPlanned cs (suc n) _ h
      (ground (arith, l, length-append p.units (new_unit p kind subject none ∷ []))))
run_calls-IsPlanned (ovn on d ∷ cs) n p ((m, e, f), h) l = rw e (
    rest-IsPlanned (n + opens cs) cs n _
      (resolved-IsPlanned n (resolve_declared p d) m p (resolve_declared-IsPlacedWell p d) l f)
      (λ q k. run_calls-IsPlanned cs n q h k))
run_calls-IsPlanned (wait_capture on var argv ∷ cs) n p ((m, e, f), h) l = rw e (
    rest-IsPlanned (n + opens cs) cs n _ (add_step-IsPlanned n m _ _ l f)
      (λ q k. run_calls-IsPlanned cs n q h k))
run_calls-IsPlanned (keyed_unit kind subject key ∷ cs) n p h l = IsPlanned-eq _ (omega arith) (
    run_calls-IsPlanned cs (suc n) _ h
      (ground (arith, l, length-append p.units (new_unit p kind (some subject) (some key) ∷ []))))
run_calls-IsPlanned (does on op ∷ cs) n p ((m, e, f), h) l = rw e (
    rest-IsPlanned (n + opens cs) cs n _ (add_step-IsPlanned n m op p l f)
      (λ q k. run_calls-IsPlanned cs n q h k))
run_calls-IsPlanned (capture_value on var argv ∷ cs) n p ((m, e, f), h) l = rw e (
    rest-IsPlanned (n + opens cs) cs n _ (add_step-IsPlanned n m _ _ l f)
      (λ q k. run_calls-IsPlanned cs n q h k))
run_calls-IsPlanned (netns_symlink on container var ∷ cs) n p ((m, e, f), h) l = rw e (
    rest-IsPlanned (n + opens cs) cs n _
      (symlink-IsPlanned n container m p (lookup var p.refs) var l f)
      (λ q k. run_calls-IsPlanned cs n q h k))
