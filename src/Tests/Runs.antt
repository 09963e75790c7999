-- ===== src/Tests/Runs.antt =====
-- Runs of a queue, and of one primitive.
use mathlib.Core.List.{foldl}
use ovn_fabric.Prelude.{false, some, ◌≡◌, refl, List, [], ◌∷◌, ◌++◌}
use ovn_fabric.Lifecycle.{
  create_primitive, run_all, run_cmd, capture_cmd, capture_from, Capture, upsert, Host, done, sleep,
  restart, words, limit, remove, create, create_step, resolve_operation, ok, Fault, Action, exec,
  delete_primitive, ◌>>◌, unit_failed, Run, create_all, delete_all, delete_step, execute,
}
use ovn_fabric.Lifecycle.Order.{
  Failure, create_all-Failure, delete_all-eq-foldl, execute-append_delete,
}
use ovn_fabric.Lifecycle.BestEffort.{planned, delete_primitive_lem}
use ovn_fabric.Lifecycle.Strict.{AllWell, create_primitive-eq-ok, create_primitive-raised}
use ovn_fabric.Lifecycle.Captures.{Stores, capture_from-Stores}
use ovn_fabric.Value.{text}
use ovn_fabric.Tests.Samples.{host, creator, deleter, run, queue, item}

abbrev stopped : Run
stopped = (create_all host creator queue run).1

create_all-Failure_example :
    Failure host creator queue run (unit_failed "broken" ("ip" ∷ "broken" ∷ [])) stopped
unfolding create_all create_step create resolve_operation
create_all-Failure_example =
    create_all-Failure host creator queue run (unit_failed "broken" ("ip" ∷ "broken" ∷ [])) stopped
      refl

delete_all-eq-foldl_example :
    delete_all host deleter queue run
    ≡ (ok tt, foldl (λ s op. (delete_step host deleter op s).1) run queue)
delete_all-eq-foldl_example = delete_all-eq-foldl host deleter queue run

execute-append_delete_example :
    execute host deleter (queue ++ queue) run
    ≡ (execute host deleter queue >> execute host deleter queue) run
execute-append_delete_example = execute-append_delete host deleter queue queue run refl refl

abbrev gone : List Action
gone = exec ("ip" ∷ "broken" ∷ []) (some 600) ∷ []

delete_primitive_lem_example :
    (w : List Fault) × (delete_primitive host deleter (item "up" "broken") run ≡ (
      ok tt,
      record run { trace = run.trace ++ gone; warned = w; graph = remove "up" run.graph },
    ))
unfolding words limit
delete_primitive_lem_example =
    delete_primitive_lem host deleter refl (item "up" "broken") gone run refl

abbrev made : Run
made = (create_primitive host creator (item "up" "down") run).1

create_primitive-eq-ok_example :
    (acts : List Action) × (planned creator (item "up" "down").create_cmds ≡ some acts)
    × (made.trace ≡ run.trace ++ acts)
    × AllWell host run.trace (item "up" "down").create_cmds acts
    × (made.graph ≡ upsert (item "up" "down").nodes run.graph)
    × (made.store ≡ run.store)
unfolding create_primitive run_all run_cmd
create_primitive-eq-ok_example =
    create_primitive-eq-ok host creator refl (item "up" "down") run made refl

abbrev unmade : Run
unmade = (create_primitive host creator (item "broken" "down") run).1

create_primitive-raised_example : (unmade.graph ≡ run.graph) × (unmade.store ≡ run.store)
unfolding create_primitive run_all run_cmd
create_primitive-raised_example =
    create_primitive-raised host creator (item "broken" "down") run unmade
      (unit_failed "broken" ("ip" ∷ "broken" ∷ [])) refl

-- It answers a text after one second.
abbrev slow_host : Host
slow_host trace a = elim a [ sleep n ↦ done "" | _ ↦ elim trace [ [] ↦ done "" | _ ↦ done "7" ] ]

abbrev chassis : Capture
chassis = record {
  name = "chassis";
  label = "chassis";
  argv = text "ovs-vsctl" ∷ [];
  optional = false;
  retries = 2;
  restart_unit = some "ovn-controller";
  result_key = some "CHASSIS_ID";
}

abbrev known : Run
known = (capture_from slow_host creator chassis 2 run).1

capture_from-Stores_example : Stores slow_host creator chassis run known
unfolding capture_from capture_cmd restart run_cmd
capture_from-Stores_example = capture_from-Stores slow_host creator chassis 2 run known refl
