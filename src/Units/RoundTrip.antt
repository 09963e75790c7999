-- ===== src/Units/RoundTrip.antt =====
-- An operation that was serialized into a step is the same operation when it is loaded
-- (fabric/units.py: "both directions are 1:1").
use ovn_fabric.Prelude.{
  ℕ, zero, suc, String, Bool, true, false, some, List, [], ◌∷◌, >>=-eq-some, ◌≡◌, refl, map, All,
  arith,
}
use ovn_fabric.Value.{Value, text, ref, obj}
use ovn_fabric.Lifecycle.{
  RawNodeTemplate, Command, Operation, primitive, write_file, capture, symlink_netns, directory,
  chmod_file, remove_path,
}
use ovn_fabric.Units.JsonLaws.{sorted, sorted_fields, IsPlainFields, decode-encode}
use ovn_fabric.Units.Steps.{
  Arg, StepCommand, Step, to_value, to_arg, to_values, to_args, flag, to_flag, count, to_count,
  command, to_command, commands, to_commands, load_node, dump_node, load_nodes, dump_nodes,
  to_operation, to_step,
}

to_value-to_arg : (v : Value) (a : Arg) → to_arg v ≡ some a → to_value a ≡ v
unfolding to_value to_arg
to_value-to_arg (text s) a h = ground arith
to_value-to_arg (ref r) a h = ground arith
to_value-to_arg _ a h = cc

to_values-to_args : (vs : List Value) (as' : List Arg) → to_args vs ≡ some as' → to_values as' ≡ vs
unfolding to_values to_args
to_values-to_args [] as' h = ground arith
to_values-to_args (v ∷ vs) as' h =
    let (a, e, h') = >>=-eq-some (to_arg v) _ h in
    let (rest, e', h'') = >>=-eq-some (to_args vs) _ h' in
    ground (arith, to_value-to_arg v a, to_values-to_args vs rest)

flag-to_flag : (b : Bool) → flag (to_flag b) ≡ b
unfolding flag to_flag
flag-to_flag true = refl
flag-to_flag false = refl

count-to_count : (n : ℕ) → count (to_count n) ≡ n
unfolding count to_count
count-to_count zero = refl
count-to_count (suc n) = refl

command-to_command : (c : Command) (s : StepCommand) → to_command c ≡ some s → command s ≡ c
unfolding command to_command
command-to_command c s h =
    let (argv, e, h') = >>=-eq-some (to_args c.argv) _ h in
    ground (arith, to_values-to_args c.argv argv, flag-to_flag c.optional)

commands-to_commands :
    (cs : List Command) (ss : List StepCommand) → to_commands cs ≡ some ss → commands ss ≡ cs
unfolding commands to_commands
commands-to_commands [] ss h = ground arith
commands-to_commands (c ∷ cs) ss h =
    let (s, e, h') = >>=-eq-some (to_command c) _ h in
    let (rest, e', h'') = >>=-eq-some (to_commands cs) _ h' in
    ground (arith, command-to_command c s, commands-to_commands cs rest)

-- The same template with its fields' keys in order, in every object.
abbrev pub sorted_node : RawNodeTemplate → RawNodeTemplate
sorted_node t = record t { fields = sorted_fields t.fields }

load_node-dump_node :
    (t : RawNodeTemplate) → IsPlainFields t.fields → load_node (dump_node t) ≡ some (sorted_node t)
unfolding load_node dump_node sorted
load_node-dump_node t h = rw (decode-encode (obj t.fields) h)

load_nodes-dump_nodes :
    (ts : List RawNodeTemplate)
    → All (λ t. IsPlainFields t.fields) ts
    → load_nodes (dump_nodes ts) ≡ some (map sorted_node ts)
unfolding load_nodes dump_nodes
load_nodes-dump_nodes [] h = refl
load_nodes-dump_nodes (t ∷ ts) h = rw (load_node-dump_node t h.0, load_nodes-dump_nodes ts h.1)

-- What a serialized operation is when it is loaded on `host`.
unfoldable pub moved : String → Operation → Operation
moved host (primitive p) = primitive (record p { nodes = map sorted_node p.nodes })
moved host (directory _ path owned) = directory host path owned
moved host (chmod_file _ path mode) = chmod_file host path mode
moved host (remove_path _ path recursive) = remove_path host path recursive
moved host op = op

-- None of an operation's raw nodes has the key `$ref` in its data.
abbrev pub IsStorable : Operation → Type 0
IsStorable (primitive p) = All (λ t. IsPlainFields t.fields) p.nodes
IsStorable _ = Unit

-- An operation that can be serialized, and whose raw nodes do not use the key `$ref`, comes back
-- from its step with every field as it was, on the host on which it is loaded and with the keys
-- of its nodes' objects in order.
pub to_operation-to_step :
    (op : Operation) (step : Step) (host : String)
    → IsStorable op
    → to_step op ≡ some step
    → to_operation step host ≡ some (moved host op)
unfolding to_operation to_step moved
to_operation-to_step (primitive p) step host plain h =
    let (create, e, h') = >>=-eq-some (to_commands p.create_cmds) _ h in
    let (delete, e', h'') = >>=-eq-some (to_commands p.delete_cmds) _ h' in
    ground (
      arith,
      commands-to_commands p.create_cmds create,
      commands-to_commands p.delete_cmds delete,
      load_nodes-dump_nodes p.nodes,
    )
to_operation-to_step (capture k) step host plain h =
    let (argv, e, h') = >>=-eq-some (to_args k.argv) _ h in
    ground (arith, to_values-to_args k.argv argv, flag-to_flag k.optional, count-to_count k.retries)
to_operation-to_step (symlink_netns container pid) step host plain h =
    let (a, e, h') = >>=-eq-some (to_arg pid) _ h in ground (arith, to_value-to_arg pid a)
to_operation-to_step (directory hst path owned) step host plain h =
    ground (arith, flag-to_flag owned)
to_operation-to_step (remove_path hst path rec) step host plain h = ground (arith, flag-to_flag rec)
to_operation-to_step (write_file path content mode) step host plain h = ground arith
to_operation-to_step (chmod_file hst path mode) step host plain h = ground arith
