-- ===== src/Plan/Growth.antt =====
-- How many units a plan has after calls (fabric/plan.py).
use ovn_fabric.Prelude.{
  ℕ, suc, ◌+◌, ◌≤◌, ◌<◌, String, ◌≡◌, refl, sym, ap, ◌∙◌, Bool, true, false, Option, none, some,
  List, [], ◌∷◌, ◌++◌, length, length-append, ◌==◌, if◌then◌else◌, lookup, arith,
}
use ovn_fabric.Lifecycle.{Operation}
use ovn_fabric.Units.Steps.{Step, to_step}
use ovn_fabric.Plan.Calls.{
  PlanFault, Outcome, done, failed, ◌>>=◌, Call, unit, ovn, wait_capture, keyed_unit, does,
  capture_value, netns_symlink, Declared, opens, Emission, ◌then_emit◌, late_unit, outside_unit,
  bad_step,
}
use ovn_fabric.Plan.Units.{
  Plan, serialized, append_step, newest_name, add_step, call_plan, run_calls, resolve_declared,
  new_unit, pid_of,
}
use ovn_fabric.Plan.Discipline.{Holds, length-append_step}
use ovn_fabric.Cluster.Kept.{Holds->>=}

-- So many units after it.
abbrev pub HasUnits : ℕ → Outcome Plan → Type 0
HasUnits n o = Holds (λ p. length p.units ≡ n) o

module _ (n : ℕ) where
  placed :
      (b : Bool) (q : Plan) (e : PlanFault)
      → length q.units ≡ n
      → HasUnits n (if b then done q else failed e)
  placed true q e l = l
  placed false q e l = tt

  add_step-HasUnits :
      (on : Option ℕ) (op : Operation) (p : Plan)
      → length p.units ≡ n
      → HasUnits n (add_step on op p)
  unfolding add_step serialized
  add_step-HasUnits on op p l = added on (to_step op)
    where
      added :
          (on : Option ℕ) (o : Option Step)
          → HasUnits n (
              serialized o >>= λ s. elim on [
                | none ↦ failed outside_unit
                | some m ↦
                    if suc m == length p.units
                    then done (record p { units = append_step s p.units })
                    else failed (late_unit (newest_name p.units))
              ])
      added on none = tt
      added none (some s) = tt
      added (some m) (some s) =
          placed (suc m == length p.units) (record p { units = append_step s p.units })
            (late_unit (newest_name p.units)) (length-append_step s p.units ∙ l)

  then-HasUnits :
      {A : Type 0} (o : Outcome A) (f : A → Outcome Plan)
      → ((a : A) → HasUnits n (f a))
      → HasUnits n (o >>= f)
  then-HasUnits (done a) f h = h a
  then-HasUnits (failed e) f h = tt

HasUnits-eq : {m n : ℕ} (o : Outcome Plan) → m ≡ n → HasUnits m o → HasUnits n o
HasUnits-eq o e h = rw (sym e) h

-- A call that opens no unit.
abbrev IsQuiet : Call → Type 0
IsQuiet c = (p : Plan) → HasUnits (length p.units) (call_plan c p)

ovn-IsQuiet : (on : Option ℕ) (d : Declared) → IsQuiet (ovn on d)
unfolding call_plan
ovn-IsQuiet on d p =
    then-HasUnits (length p.units) (resolve_declared p d) _ (λ x. add_step-HasUnits _ on _ p refl)

wait_capture-IsQuiet :
    (on : Option ℕ) (var : String) (argv : List String) → IsQuiet (wait_capture on var argv)
unfolding call_plan
wait_capture-IsQuiet on var argv p = add_step-HasUnits (length p.units) on _ _ refl

does-IsQuiet : (on : Option ℕ) (op : Operation) → IsQuiet (does on op)
unfolding call_plan
does-IsQuiet on op p = add_step-HasUnits (length p.units) on op p refl

capture_value-IsQuiet :
    (on : Option ℕ) (var : String) (argv : List String) → IsQuiet (capture_value on var argv)
unfolding call_plan
capture_value-IsQuiet on var argv p = add_step-HasUnits (length p.units) on _ _ refl

netns_symlink-IsQuiet :
    (on : Option ℕ) (name pid_var : String) → IsQuiet (netns_symlink on name pid_var)
unfolding call_plan
netns_symlink-IsQuiet on name pid_var p =
    then-HasUnits (length p.units) (pid_of pid_var (lookup pid_var p.refs)) _
      (λ pid. add_step-HasUnits _ on _ p refl)

quiet-HasUnits :
    (c : Call) (cs : List Call) (p : Plan)
    → IsQuiet c
    → ((q : Plan) → HasUnits (length q.units + opens cs) (run_calls cs q))
    → HasUnits (length p.units + opens cs) (call_plan c p >>= λ q. run_calls cs q)
quiet-HasUnits c cs p h rest =
    Holds->>= (λ q. length q.units ≡ length p.units) _ (call_plan c p) _ (h p)
      (λ q e. HasUnits-eq _ (omega (arith, e)) (rest q))

-- Calls that go well leave as many units more as they open.
pub run_calls-HasUnits :
    (cs : List Call) (p : Plan) → HasUnits (length p.units + opens cs) (run_calls cs p)
unfolding run_calls call_plan opens
run_calls-HasUnits [] p = omega arith
run_calls-HasUnits (unit kind subject ∷ cs) p =
    HasUnits-eq _ (ground (arith, length-append p.units (new_unit p kind subject none ∷ [])))
      (run_calls-HasUnits cs _)
run_calls-HasUnits (keyed_unit kind subject key ∷ cs) p =
    HasUnits-eq _
      (ground (arith, length-append p.units (new_unit p kind (some subject) (some key) ∷ [])))
      (run_calls-HasUnits cs _)
run_calls-HasUnits (ovn on d ∷ cs) p =
    quiet-HasUnits (ovn on d) cs p (ovn-IsQuiet on d) (λ q. run_calls-HasUnits cs q)
run_calls-HasUnits (wait_capture on var argv ∷ cs) p =
    quiet-HasUnits (wait_capture on var argv) cs p (wait_capture-IsQuiet on var argv)
      (λ q. run_calls-HasUnits cs q)
run_calls-HasUnits (does on op ∷ cs) p =
    quiet-HasUnits (does on op) cs p (does-IsQuiet on op) (λ q. run_calls-HasUnits cs q)
run_calls-HasUnits (capture_value on var argv ∷ cs) p =
    quiet-HasUnits (capture_value on var argv) cs p (capture_value-IsQuiet on var argv)
      (λ q. run_calls-HasUnits cs q)
run_calls-HasUnits (netns_symlink on name var ∷ cs) p =
    quiet-HasUnits (netns_symlink on name var) cs p (netns_symlink-IsQuiet on name var)
      (λ q. run_calls-HasUnits cs q)

pub run_calls-append :
    (xs ys : List Call) (p : Plan)
    → run_calls (xs ++ ys) p ≡ (run_calls xs p >>= λ q. run_calls ys q)
unfolding run_calls
run_calls-append [] ys p = refl
run_calls-append (x ∷ xs) ys p = continued (call_plan x p) (λ q. run_calls-append xs ys q)
  where
    continued :
        (o : Outcome Plan)
        → ((q : Plan) → run_calls (xs ++ ys) q ≡ (run_calls xs q >>= λ r. run_calls ys r))
        → (o >>= λ q. run_calls (xs ++ ys) q)
          ≡ ((o >>= λ q. run_calls xs q) >>= λ q. run_calls ys q)
    continued (done q) rest = rest q
    continued (failed e) rest = refl

pub opens-append : (xs ys : List Call) → opens (xs ++ ys) ≡ opens xs + opens ys
unfolding opens
opens-append [] ys = omega arith
opens-append (unit kind subject ∷ xs) ys = omega (arith, opens-append xs ys)
opens-append (keyed_unit kind subject key ∷ xs) ys = omega (arith, opens-append xs ys)
opens-append (ovn on d ∷ xs) ys = opens-append xs ys
opens-append (wait_capture on var argv ∷ xs) ys = opens-append xs ys
opens-append (does on op ∷ xs) ys = opens-append xs ys
opens-append (capture_value on var argv ∷ xs) ys = opens-append xs ys
opens-append (netns_symlink on name var ∷ xs) ys = opens-append xs ys

-- The declaration opens so many units, or more.
abbrev pub Opens : ℕ → Emission → Type 0
Opens k e = (n : ℕ) → Holds (λ cs. k ≤ opens cs) (e n)

pub Opens-any : (e : Emission) → Opens 0 e
Opens-any e n = go (e n)
  where
    go : (o : Outcome (List Call)) → Holds (λ cs. 0 ≤ opens cs) o
    go (done cs) = omega arith
    go (failed x) = tt

pub Opens-then_emit :
    (j k : ℕ) (e f : Emission) → Opens j e → Opens k f → Opens (j + k) (e then_emit f)
unfolding ◌then_emit◌
Opens-then_emit j k e f h l n =
    Holds->>= (λ cs. j ≤ opens cs) _ (e n) _ (h n)
      (λ xs a.
        Holds->>= (λ cs. k ≤ opens cs) _ (f (n + opens xs)) _ (l (n + opens xs))
          (λ ys b. omega (arith, a, b, opens-append xs ys)))

-- The operation fails on a unit that is not the newest.
late :
    (m : ℕ) (op : Operation) (p : Plan)
    → suc m < length p.units
    → (e : PlanFault) × (add_step (some m) op p ≡ failed e)
unfolding add_step serialized
late m op p h = go (to_step op)
  where
    older : (suc m == length p.units) ≡ false
    older = ground (arith, h)

    go :
        (o : Option Step)
        → (e : PlanFault) × ((serialized o >>= λ s.
              if suc m == length p.units
              then done (record p { units = append_step s p.units })
              else failed (late_unit (newest_name p.units)))
            ≡ failed e)
    go none = (bad_step, refl)
    go (some s) = (late_unit (newest_name p.units), rw older refl)

pub does_late :
    (m : ℕ) (op : Operation) (p : Plan)
    → suc m < length p.units
    → (x : PlanFault) × (run_calls (does (some m) op ∷ []) p ≡ failed x)
unfolding run_calls call_plan
does_late m op p h = let (x, e) = late m op p h in (x, ap (λ o. o >>= λ q. run_calls [] q) e)
