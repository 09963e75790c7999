-- ===== src/Apply/Outcome.antt =====
-- What `apply` (fabric/services/apply.py) answers: the outcome, and the results of the units.
use ovn_fabric.Prelude.{
  String, ◌≡◌, refl, Bool, true, false, not, ◌&&◌, Option, none, some, List, [], ◌∷◌, any, all,
  contains, is_some, arith,
}
use ovn_fabric.Apply.{
  WorkUnit, ApplyUnit, Executor, start, run_units, is_failed, outcome_done, Answer as ApplyAnswer,
  apply_res, ordered, answered, run_plan, apply,
}
use ovn_fabric.Apply.Skips.{is_skipped, is_done, with_result, Verdicts, run_units-Verdicts}

-- A skipped unit has a failed one before it.
skipped_after :
    (creating : Bool) (bad us : List WorkUnit) (rs : List ApplyUnit)
    → Verdicts creating bad us rs
    → bad ≡ []
    → any is_failed rs ≡ false
    → any is_skipped rs ≡ false
unfolding Verdicts
skipped_after creating bad [] [] v h k = refl
skipped_after creating bad [] (r ∷ rs) v h k = absurd v
skipped_after creating bad (u ∷ us) [] v h k = absurd v
skipped_after creating bad (u ∷ us) (r ∷ rs) v h k =
    let ih = skipped_after creating (with_result bad u r) us rs v.2 (ground arith) (ground arith) in
    ground (arith, ih, v.1)

all_done :
    (rs : List ApplyUnit) → all is_done rs ≡ (not (any is_failed rs) && not (any is_skipped rs))
all_done [] = refl
all_done (r ∷ rs) = ground (arith, all_done rs)

outcome_done-run_units :
    (executor : Executor) (creating : Bool) (us : List WorkUnit)
    → outcome_done (run_units executor creating us start).results
      ≡ all is_done (run_units executor creating us start).results
unfolding outcome_done
outcome_done-run_units executor creating us =
    let (rs, same, sent, v) = run_units-Verdicts executor creating us in
    let none_skipped = skipped_after creating [] us rs v refl in
    rw same (ground (arith, all_done rs, none_skipped))

-- The dependencies of the host stop a create that is no dry run.
abbrev pub stops : (creating dry_run : Bool) → Option String → Bool
stops creating dry_run problem = creating && not dry_run && is_some problem

-- What an apply of a plan answers.
pub record Applied (creating dry_run : Bool) (plan : List WorkUnit) (problem : Option String)
    (answer : ApplyAnswer) : Type 0 where
  pub results : List ApplyUnit
  pub answers :
      answer ≡ apply_res (not (stops creating dry_run problem) && all is_done results) results
  pub none_run : stops creating dry_run problem ≡ true → results ≡ []
  pub verdicts :
      stops creating dry_run problem ≡ false → Verdicts creating [] (ordered creating plan) results

ran-Applied :
    (executor : Executor) (creating dry_run : Bool) (plan : List WorkUnit) (problem : Option String)
    → stops creating dry_run problem ≡ false
    → Applied creating dry_run plan problem
        (answered (run_units executor creating (ordered creating plan) start).results)
unfolding answered
ran-Applied executor creating dry_run plan problem goes =
    let (rs, same, sent, v) = run_units-Verdicts executor creating (ordered creating plan) in
    record {
      results = rs;
      answers =
          rw (goes, outcome_done-run_units executor creating (ordered creating plan), same) refl;
      none_run = λ stopped. absurd (ground (arith, goes, stopped));
      verdicts = λ _. v;
    }

-- An apply of a plan to one of the IR's hosts is done exactly when no dependency of the host stops
-- it (one that is not ready stops a create that is no dry run) and every unit of its answer is done.
-- When it is stopped its answer has no units; otherwise it has one for each unit of the plan, from
-- the plan's end on a delete, which is skipped exactly when the apply is a create and a unit that it
-- needs failed before.
pub apply_lem :
    (executor : Executor) (creating dry_run : Bool) (hosts : List String) (host : String)
    (plan : List WorkUnit) (problem : Option String)
    → contains hosts host ≡ true
    → Applied creating dry_run plan problem
        (apply executor creating dry_run hosts host (some plan) problem)
unfolding apply run_plan
apply_lem executor creating dry_run hosts host plan none known =
    rw known (ran-Applied executor creating dry_run plan none (ground arith))
apply_lem executor true false hosts host plan (some problem) known = rw known (record {
  results = [];
  answers = refl;
  none_run = λ _. refl;
  verdicts = λ goes. absurd (ground (arith, goes));
})
apply_lem executor true true hosts host plan (some problem) known =
    rw known (ran-Applied executor true true plan (some problem) refl)
apply_lem executor false dry_run hosts host plan (some problem) known =
    rw known (ran-Applied executor false dry_run plan (some problem) refl)
