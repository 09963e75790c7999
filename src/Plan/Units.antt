-- ===== src/Plan/Units.antt =====
-- fabric/plan.py: `PlanEmitter`, the emitter that keeps operations in units.
use ovn_fabric.Prelude.{
  ℕ, suc, String, ◌<>◌, false, Option, none, some, List, [], ◌∷◌, ◌++◌, Dict, lookup, insert,
  length, str_eq, ◌==◌, if◌then◌else◌,
}
use ovn_fabric.Value.{Value, ref, RuntimeRef}
use ovn_fabric.Lifecycle.{Operation, primitive, capture, symlink_netns}
use ovn_fabric.Primitives.Build.{texts}
use ovn_fabric.Primitives.Ovn.{OvnObject, ovn_primitive}
use ovn_fabric.Primitives.Ovn.Kinds.{lrp}
use ovn_fabric.Units.Steps.{Step, to_step}
use ovn_fabric.Plan.Calls.{
  bad_step, uncaptured, outside_unit, late_unit, Outcome, done, failed, ◌>>=◌, Declared, object,
  pinned_lrp, Call, unit, ovn, wait_capture, keyed_unit, does, capture_value, netns_symlink,
  missing_key,
}

-- `g.Unit`
pub record WorkUnit : Type 0 where
  pub name : String
  pub kind : String
  pub key : Option String
  pub scope : String
  pub steps : List Step

-- `_Plan`
pub record Plan : Type 0 where
  pub scope : String
  pub units : List WorkUnit
  pub values : Dict Value
  pub refs : Dict RuntimeRef

unfoldable pub new_plan : String → Plan
new_plan scope = record { scope = scope; units = []; values = []; refs = [] }

-- `unit_name`
unfoldable pub unit_name : String → Option String → String
unit_name kind none = kind
unit_name kind (some subject) = if str_eq subject "" then kind else kind <> ": " <> subject

-- `_resolve` of a `Ref`: a value that the plan has, or the reference to a capture.
unfoldable pub named_ref : String → Option RuntimeRef → Outcome Value
named_ref name none = failed (uncaptured name)
named_ref name (some r) = done (ref r)

unfoldable pub named_value : Option Value → Outcome Value → Outcome Value
named_value none rest = rest
named_value (some v) rest = done v

unfoldable pub resolve_name : Plan → String → Outcome Value
unfolding named_ref named_value
resolve_name p name = named_value (lookup name p.values) (named_ref name (lookup name p.refs))

unfoldable pub resolve_declared : Plan → Declared → Outcome OvnObject
unfolding resolve_name
resolve_declared p (object x) = done x
resolve_declared p (pinned_lrp router name mac networks chassis ra) =
    resolve_name p chassis >>= λ v. done (lrp router name mac networks (some v) ra)

unfoldable pub serialized : Option Step → Outcome Step
serialized none = failed bad_step
serialized (some s) = done s

-- `self._unit.steps.append(step)`, where the unit is the newest.
unfoldable pub append_step : Step → List WorkUnit → List WorkUnit
append_step s [] = []
append_step s (u ∷ []) = record u { steps = u.steps ++ (s ∷ []) } ∷ []
append_step s (u ∷ v ∷ us) = u ∷ append_step s (v ∷ us)

unfoldable pub newest_name : List WorkUnit → String
newest_name [] = ""
newest_name (u ∷ []) = u.name
newest_name (u ∷ v ∷ us) = newest_name (v ∷ us)

-- `_add`, of an operation without its `Ref`s.
unfoldable pub add_step : Option ℕ → Operation → Plan → Outcome Plan
unfolding serialized append_step newest_name
add_step on op p = serialized (to_step op) >>= λ s. elim on [
  | none ↦ failed outside_unit
  | some n ↦
      if suc n == length p.units
      then done (record p { units = append_step s p.units })
      else failed (late_unit (newest_name p.units))
]

-- `_capture` of `wait_capture`
unfoldable pub capture_op : String → String → List String → Operation
capture_op scope var argv = capture (record {
  name = var;
  label = scope;
  argv = texts argv;
  optional = false;
  retries = 30;
  restart_unit = some "ovn-controller";
  result_key = some "CHASSIS_ID";
})

-- `unit` of the emitter
unfoldable pub new_unit : Plan → String → Option String → Option String → WorkUnit
unfolding unit_name
new_unit p kind subject key = record {
  name = unit_name kind subject;
  kind = kind;
  key = key;
  scope = p.scope;
  steps = [];
}

-- `_capture` of `capture`
unfoldable pub plain_capture : String → String → List String → Operation
plain_capture scope var argv = capture (record {
  name = var;
  label = scope;
  argv = texts argv;
  optional = false;
  retries = 0;
  restart_unit = none;
  result_key = none;
})

-- `self.plan.refs[pid_var]`
unfoldable pub pid_of : String → Option RuntimeRef → Outcome Value
pid_of var none = failed (missing_key var)
pid_of var (some r) = done (ref r)

-- One call.
unfoldable pub call_plan : Call → Plan → Outcome Plan
unfolding new_unit resolve_declared add_step capture_op plain_capture pid_of
call_plan (unit kind subject) p =
    done (record p { units = p.units ++ (new_unit p kind subject none ∷ []) })
call_plan (ovn on d) p = resolve_declared p d >>= λ x. add_step on (primitive (ovn_primitive x)) p
call_plan (wait_capture on var argv) p =
    add_step on (capture_op p.scope var argv)
      (record p { refs = insert var (record { name = var; key = some "CHASSIS_ID" }) p.refs })
call_plan (keyed_unit kind subject key) p =
    done (record p { units = p.units ++ (new_unit p kind (some subject) (some key) ∷ []) })
call_plan (does on op) p = add_step on op p
call_plan (capture_value on var argv) p =
    add_step on (plain_capture p.scope var argv)
      (record p { refs = insert var (record { name = var; key = none }) p.refs })
call_plan (netns_symlink on container pid_var) p =
    pid_of pid_var (lookup pid_var p.refs) >>= λ pid. add_step on (symlink_netns container pid) p

-- All calls of a declaration.
unfoldable pub run_calls : List Call → Plan → Outcome Plan
unfolding call_plan
run_calls [] p = done p
run_calls (c ∷ cs) p = call_plan c p >>= λ q. run_calls cs q
