-- ===== src/Tests/Graphs.antt =====
-- Raw graphs of the sample objects.
use ovn_fabric.Prelude.{
  map, List, [], ◌∷◌, ◌≡◌, ◌≢◌, ◌↔◌, refl, some, none, List, ◌++◌, length, lookup, arith, eq_iff,
}
use ovn_fabric.Lifecycle.{
  Host, failed, Run, create_all, create_step, create, resolve_operation, primitive, execute, Graph,
  upsert, remove, validate, node, refs, Action, Fault, ok, delete_primitive, Primitive,
}
use ovn_fabric.Lifecycle.GraphLaws.{IsClosed, validate-IsClosed, upsert-IsClosed}
use ovn_fabric.Primitives.Teardown.{execute-create_all}
use ovn_fabric.Primitives.Objects.{object-IsRegular, object_primitive, delete_object}
use ovn_fabric.Lifecycle.BestEffort.{planned}
use ovn_fabric.Primitives.Ovs.{ovs_primitive}
use ovn_fabric.Primitives.NetnsLink.{
  final_name, NetnsLink, made, netns_link_primitive, link_key, root_key,
}
use ovn_fabric.Primitives.LinkLaws.{veth_leaves_root}
use ovn_fabric.Primitives.Build.{cmd, texts}
use ovn_fabric.Ladops.Ovs.{add_br_argv, set_bridge_fail_mode_argv, add_port_argv, set_port_tag_argv}
use ovn_fabric.Tests.Samples.{creator, item, host, deleter, run, graph, bridge, port, pair}

abbrev bridged : Graph
bridged = upsert (object_primitive bridge).nodes graph

validate-IsClosed_example : (validate bridged ≡ none) ↔ IsClosed bridged
validate-IsClosed_example = validate-IsClosed bridged

upsert-IsClosed_example : IsClosed (upsert (object_primitive port).nodes bridged)
unfolding validate upsert object_primitive ovs_primitive node refs lookup
upsert-IsClosed_example =
    upsert-IsClosed (object_primitive port).nodes bridged (tt, tt)
      ((λ absent. ground arith, tt), tt)

delete_object_example :
    (acts : List Action) × (w : List Fault) × (planned deleter (object_primitive port).delete_cmds
      ≡ some acts)
    × (length acts ≡ length (object_primitive port).delete_cmds)
    × (delete_primitive host deleter (object_primitive port) run ≡ (
      ok tt,
      record run {
        trace = run.trace ++ acts;
        warned = w;
        graph = remove (object_primitive port).key run.graph;
      },
    ))
delete_object_example = delete_object host deleter port run refl

abbrev of_link : NetnsLink → Primitive
of_link l = elim (netns_link_primitive l) [ some p ↦ p | none ↦ item "" "" ]

veth_leaves_root_example :
    validate (remove (of_link pair).key (upsert (of_link pair).nodes bridged)) ≢ none
unfolding netns_link_primitive made link_key root_key final_name
veth_leaves_root_example =
    veth_leaves_root pair "lan-root" bridged (of_link pair) refl refl refl
      (λ same. ground (arith, eq_iff (link_key pair) (root_key "lan-root")))

-- Nothing works any more.
abbrev dead_host : Host
dead_host trace a = failed

abbrev pair_of_objects : List Primitive
pair_of_objects = object_primitive bridge ∷ object_primitive port ∷ []

abbrev created : Run
created = (create_all host creator (map primitive pair_of_objects) run).1

execute-create_all_example :
    (execute dead_host deleter (map primitive pair_of_objects) created).1.graph ≡ run.graph
unfolding create_all create_step create resolve_operation object_primitive ovs_primitive lookup cmd
    texts add_br_argv set_bridge_fail_mode_argv add_port_argv set_port_tag_argv
execute-create_all_example =
    execute-create_all host dead_host creator deleter pair_of_objects run created created refl refl
      refl (object-IsRegular bridge, (object-IsRegular port, tt))
      (
        refl,
        (
          (λ same.
              ground (arith, eq_iff (object_primitive bridge).key (object_primitive port).key)),
          tt,
        ),
        (refl, tt, tt),
      )
      refl refl
