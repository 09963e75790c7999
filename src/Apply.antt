-- ===== src/Apply.antt =====
-- fabric/services/apply.py: the apply task, which runs the units of a plan one after the other and
-- skips what a failure has made impossible. `Failures` has the record of failures.
pub mod Failures
pub mod Skips
pub mod Outcome
use ovn_fabric.Prelude.{
  ℕ, String, Bool, true, false, ◌&&◌, not, Option, none, some, List, [], ◌∷◌, ◌++◌, reverse, length,
  any, contains, if◌then◌else◌,
}
use ovn_fabric.Units.Steps.{Step}
pub use Failures.{WorkUnit, Failed}
unfoldable pub use Failures.{blocks, add, no_failure, why}

pub data ApplyState : Type 0 where
  done failed skipped : ApplyState

-- `ApplyUnit`: how a unit ended.
pub record ApplyUnit : Type 0 where
  pub name : String
  pub state : ApplyState
  pub operations : Option ℕ
  pub message : Option String

-- The values that units hand on, `(name, json)`.
abbrev pub Store : Type 0
Store = List (String × String)

-- The executor's final answer to a `UnitExecReq`: `ErrorRes` (as `code: message`), or
-- `UnitExecRes`.
pub data Reply : Type 0 where
  error_res : (message : String) → Reply
  exec_res : (ended : Bool) (message : Option String) (outputs : Store) → Reply

-- The executor may answer by all the units that it ran before.
abbrev pub Executor : Type 0
Executor = List WorkUnit → Store → WorkUnit → Reply

-- The variables of `_run`, and the requests sent so far.
pub record Loop : Type 0 where
  pub store : Store
  pub results : List ApplyUnit
  pub failures : Failed
  pub executed : List WorkUnit

abbrev pub start : Loop
start = record { store = []; results = []; failures = no_failure; executed = [] }

unfoldable pub skip : WorkUnit → Loop → Loop
skip u s = record s {
  results =
      s.results
      ++ (record {
        name = u.name;
        state = skipped;
        operations = none;
        message = some (why s.failures u);
      }
          ∷ []);
}

-- A unit that ended badly is added to the failures.
unfoldable pub settle : WorkUnit → Reply → Loop → Loop
settle u (error_res message) s = record s {
  results =
      s.results
      ++ (record { name = u.name; state = failed; operations = none; message = some message } ∷ []);
  failures = add s.failures u;
  executed = s.executed ++ (u ∷ []);
}
settle u (exec_res true message outputs) s = record s {
  store = outputs;
  results =
      s.results
      ++ (record {
        name = u.name;
        state = done;
        operations = some (length u.steps);
        message = message;
      }
          ∷ []);
  executed = s.executed ++ (u ∷ []);
}
settle u (exec_res false message outputs) s = record {
  store = outputs;
  results =
      s.results
      ++ (record {
        name = u.name;
        state = failed;
        operations = some (length u.steps);
        message = message;
      }
          ∷ []);
  failures = add s.failures u;
  executed = s.executed ++ (u ∷ []);
}

module _ (executor : Executor) (creating : Bool) where
  unfoldable pub step : WorkUnit → Loop → Loop
  step u s =
      if creating && blocks s.failures u
      then skip u s
      else settle u (executor s.executed s.store u) s

  -- `_run`
  unfoldable pub run_units : List WorkUnit → Loop → Loop
  run_units [] s = s
  run_units (u ∷ us) s = run_units us (step u s)

abbrev pub is_failed : ApplyUnit → Bool
is_failed r = elim r.state [ failed ↦ true | _ ↦ false ]

-- `IrApplyOutcome` of the results: failed when one of them is.
unfoldable pub outcome_done : List ApplyUnit → Bool
outcome_done results = not (any is_failed results)

-- What `apply` answers: its `ProtocolError`s, or an `IrApplyRes`.
pub data Answer : Type 0 where
  bad_request bad_ir : Answer
  apply_res : (ended : Bool) (units : List ApplyUnit) → Answer

-- The order of the units: the plan's on create, rewound on delete.
unfoldable pub ordered : Bool → List WorkUnit → List WorkUnit
ordered true plan = plan
ordered false plan = reverse plan

unfoldable pub answered : List ApplyUnit → Answer
unfolding outcome_done
answered results = apply_res (outcome_done results) results

-- `apply`, once the IR is at hand: its hosts, the plan (none: `PlanError`), and what
-- `abstract_deps` says is not ready.
module _ (executor : Executor) (creating dry_run : Bool) where
  unfoldable pub run_plan : Option String → List WorkUnit → Answer
  unfolding answered
  run_plan none plan = answered (run_units executor creating (ordered creating plan) start).results
  run_plan (some problem) plan =
      if creating && not dry_run
      then apply_res false []
      else answered (run_units executor creating (ordered creating plan) start).results

  unfoldable pub apply :
      (hosts : List String) (host : String) → Option (List WorkUnit) → Option String → Answer
  unfolding run_plan
  apply hosts host plan problem =
      if contains hosts host
      then elim plan [ none ↦ bad_ir | some units ↦ run_plan problem units ]
      else bad_request
