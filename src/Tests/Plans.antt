-- ===== src/Tests/Plans.antt =====
-- Plans, events and retries.
use ovn_fabric.Prelude.{
  ℕ, String, ◌≡◌, refl, true, false, ◌&&◌, some, none, Bool, List, [], ◌∷◌, map, any, all, str_eq,
  if◌then◌else◌, ◌==◌,
}
use ovn_fabric.Value.{text, ref, field, end}
use ovn_fabric.Lifecycle.{Operation, primitive}
use ovn_fabric.Units.Steps.{
  Step, chmod_step, to_step, to_operation, to_commands, to_command, to_args, to_arg, to_flag,
  dump_nodes, dump_node,
}
use ovn_fabric.Units.Json.{encode}
use ovn_fabric.Units.RoundTrip.{moved, to_operation-to_step}
use ovn_fabric.Apply.{WorkUnit, Executor, error_res, exec_res, ApplyUnit, start, run_units, apply}
use ovn_fabric.Apply.Skips.{run_units-Verdicts, Verdicts, not_skipped}
use ovn_fabric.Apply.Outcome.{apply_lem, Applied}
use ovn_fabric.Waiter.{Dep, Event, dependency, dict, other, waiter, waitfor_all, key}
use ovn_fabric.Waiter.Once.{waitfor_all-fired, tells, is_cons}
use ovn_fabric.Retry.{Ran, retry}
use ovn_fabric.Retry.Backoff.{Tries, retry-Tries}

abbrev unit : String → String → WorkUnit
unit name scope = record { name = name; scope = some scope; steps = [] }

abbrev plan : List WorkUnit
plan =
    unit "configure" "configure"
    ∷ unit "a:bridge" "a"
    ∷ unit "a:ports" "a"
    ∷ unit "b:bridge" "b"
    ∷ []

abbrev executor : Executor
executor before store u =
    if str_eq u.name "a:bridge" then error_res "Busy: no" else exec_res true none store

run_units-Verdicts_example :
    (rs : List ApplyUnit) × ((run_units executor true plan start).results ≡ rs)
    × ((run_units executor true plan start).executed ≡ not_skipped plan rs)
    × Verdicts true [] plan rs
run_units-Verdicts_example = run_units-Verdicts executor true plan

apply_lem_example :
    Applied false false plan
      (some "not ready")
      (apply executor false false ("hv1" ∷ []) "hv1" (some plan) (some "not ready"))
apply_lem_example = apply_lem executor false false ("hv1" ∷ []) "hv1" plan (some "not ready") refl

abbrev image : Dep
image = record { kind = "docker-image"; name = none; image = some "frr:10"; pkg = none; shown = "" }

abbrev events : List Event
events = other ∷ dict "sys-cmd-dep" (some "modprobe") none ∷ dependency image ∷ []

waitfor_all-fired_example :
    ((waitfor_all events (waiter (image ∷ []))).fired
      ≡ (is_cons events && all (λ k. any (tells k) events) (map key (image ∷ []))))
    × ((waitfor_all events (waiter (image ∷ []))).actions ≡ (
        if is_cons events && all (λ k. any (tells k) events) (map key (image ∷ [])) then 1 else 0))
waitfor_all-fired_example = waitfor_all-fired (image ∷ []) events

abbrev flaky : ℕ → Ran
flaky n = if n == 3 then (true, "") else (false, "Could not get lock")

abbrev permanent : String → Bool
permanent out = str_eq out "Unable to locate package"

retry-Tries_example : Tries flaky permanent 1 5 155 (retry flaky permanent)
retry-Tries_example = retry-Tries flaky permanent

abbrev typed : Operation
typed = primitive (record {
  key = "ovs.bridge:br-int";
  nodes =
      record {
        id = "ovs.bridge:br-int";
        kind = "ovs.bridge";
        fields = field "name" (text "br-int") end;
      }
      ∷ [];
  create_cmds =
      record {
        label = "bridge";
        argv = text "ip" ∷ ref (record { name = "pid"; key = some "tail" }) ∷ [];
        optional = true;
        timeout = some 30;
      }
      ∷ [];
  delete_cmds = [];
})

abbrev wire : Step
wire = elim (to_step typed) [ some s ↦ s | none ↦ chmod_step "" "" ]

to_operation-to_step_example : to_operation wire "hv2" ≡ some (moved "hv2" typed)
unfolding to_step to_commands to_command to_args to_arg to_flag dump_nodes dump_node encode
to_operation-to_step_example = to_operation-to_step typed wire "hv2" ((refl, tt, tt), tt) refl
