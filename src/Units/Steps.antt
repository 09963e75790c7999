-- ===== src/Units/Steps.antt =====
-- fabric/units.py: the serialized steps of a unit (the generated types of its schema), and the
-- table `_KINDS`: one load (step to operation) and one dump (operation to step) for each kind.
use ovn_fabric.Prelude.{
  ℕ, zero, String, Bool, true, false, Option, none, some, List, [], ◌∷◌, ◌>>=◌,
}
use ovn_fabric.Value.{Value, text, ref, obj, Fields}
use ovn_fabric.Lifecycle.{
  RawNodeTemplate, Command, Operation, primitive, write_file, capture, symlink_netns, directory,
  chmod_file, remove_path,
}
use ovn_fabric.Units.Json.{encode, decode}

-- `Arg`: a text, or a `RefArg`.
pub data Arg : Type 0 where
  word : String → Arg
  ref_arg : (name : String) (key : Option String) → Arg

pub record StepCommand : Type 0 where
  pub label : String
  pub argv : List Arg
  pub optional : Option Bool
  pub timeout : Option ℕ

-- `fields` is a JSON text.
pub record RawNode : Type 0 where
  pub id : String
  pub kind : String
  pub fields : Value

pub record CaptureStep : Type 0 where
  pub name : String
  pub label : String
  pub argv : List Arg
  pub optional : Option Bool
  pub retries : Option ℕ
  pub restart_unit : Option String
  pub result_key : Option String

pub data Step : Type 0 where
  primitive_step : (key : String) (nodes : List RawNode) (create delete : List StepCommand) → Step
  write_file_step : (path content : String) (mode : Option ℕ) → Step
  capture_step : CaptureStep → Step
  symlink_netns_step : (container : String) (pid : Arg) → Step
  directory_step : (path : String) (owned : Option Bool) → Step
  chmod_step : (path mode : String) → Step
  remove_path_step : (path : String) (recursive : Option Bool) → Step

-- `_arg` and `_to_arg` (none: its `TypeError`)
unfoldable pub to_value : Arg → Value
to_value (word s) = text s
to_value (ref_arg n k) = ref (record { name = n; key = k })

unfoldable pub to_arg : Value → Option Arg
to_arg (text s) = some (word s)
to_arg (ref r) = some (ref_arg r.name r.key)
to_arg _ = none

unfoldable pub to_values : List Arg → List Value
unfolding to_value
to_values [] = []
to_values (a ∷ as') = to_value a ∷ to_values as'

unfoldable pub to_args : List Value → Option (List Arg)
to_args [] = some []
to_args (v ∷ vs) = to_arg v >>= λ a. to_args vs >>= λ rest. some (a ∷ rest)

-- `bool(x)` and `x or None` of an optional flag, `n or 0` and `n or None` of a number
unfoldable pub flag : Option Bool → Bool
flag none = false
flag (some b) = b

unfoldable pub to_flag : Bool → Option Bool
to_flag true = some true
to_flag false = none

unfoldable pub count : Option ℕ → ℕ
count none = 0
count (some n) = n

unfoldable pub to_count : ℕ → Option ℕ
to_count zero = none
to_count n = some n

-- `_command` and `_to_command`
unfoldable pub command : StepCommand → Command
unfolding to_values flag
command s = record {
  label = s.label;
  argv = to_values s.argv;
  optional = flag s.optional;
  timeout = s.timeout;
}

unfoldable pub to_command : Command → Option StepCommand
unfolding to_flag
to_command c = to_args c.argv >>= λ argv.
    some
      (record { label = c.label; argv = argv; optional = to_flag c.optional; timeout = c.timeout })

unfoldable pub commands : List StepCommand → List Command
commands [] = []
commands (s ∷ ss) = command s ∷ commands ss

unfoldable pub to_commands : List Command → Option (List StepCommand)
to_commands [] = some []
to_commands (c ∷ cs) = to_command c >>= λ s. to_commands cs >>= λ ss. some (s ∷ ss)

-- The fields of a node are an object (none: a reference stands in their place).
unfoldable pub as_fields : Value → Option Fields
as_fields (obj fs) = some fs
as_fields _ = none

unfoldable pub load_node : RawNode → Option RawNodeTemplate
unfolding as_fields
load_node n =
    decode n.fields >>= as_fields >>= λ fs. some (record { id = n.id; kind = n.kind; fields = fs })

unfoldable pub dump_node : RawNodeTemplate → RawNode
dump_node t = record { id = t.id; kind = t.kind; fields = encode (obj t.fields) }

unfoldable pub load_nodes : List RawNode → Option (List RawNodeTemplate)
load_nodes [] = some []
load_nodes (n ∷ ns) = load_node n >>= λ t. load_nodes ns >>= λ ts. some (t ∷ ts)

unfoldable pub dump_nodes : List RawNodeTemplate → List RawNode
dump_nodes [] = []
dump_nodes (t ∷ ts) = dump_node t ∷ dump_nodes ts

-- `to_operation` (none: the JSON of a node's fields holds an ill-typed reference)
unfoldable pub to_operation : Step → String → Option Operation
unfolding to_value to_values flag count
to_operation (primitive_step key nodes create delete) host = load_nodes nodes >>= λ templates.
    some (
      primitive (record {
        key = key;
        nodes = templates;
        create_cmds = commands create;
        delete_cmds = commands delete;
      }))
to_operation (write_file_step path content mode) host = some (write_file path content mode)
to_operation (capture_step s) host = some (
    capture (record {
      name = s.name;
      label = s.label;
      argv = to_values s.argv;
      optional = flag s.optional;
      retries = count s.retries;
      restart_unit = s.restart_unit;
      result_key = s.result_key;
    }))
to_operation (symlink_netns_step container pid) host = some (symlink_netns container (to_value pid))
to_operation (directory_step path owned) host = some (directory host path (flag owned))
to_operation (chmod_step path mode) host = some (chmod_file host path mode)
to_operation (remove_path_step path recursive) host = some (remove_path host path (flag recursive))

-- `to_step` (none: the `TypeError` of a token that is neither a text nor a reference)
unfoldable pub to_step : Operation → Option Step
unfolding to_flag to_count
to_step (primitive p) = to_commands p.create_cmds >>= λ create.
    to_commands p.delete_cmds >>= λ delete.
    some (primitive_step p.key (dump_nodes p.nodes) create delete)
to_step (write_file path content mode) = some (write_file_step path content mode)
to_step (capture k) = to_args k.argv >>= λ argv. some (
    capture_step (record {
      name = k.name;
      label = k.label;
      argv = argv;
      optional = to_flag k.optional;
      retries = to_count k.retries;
      restart_unit = k.restart_unit;
      result_key = k.result_key;
    }))
to_step (symlink_netns container pid) = to_arg pid >>= λ a. some (symlink_netns_step container a)
to_step (directory host path owned) = some (directory_step path (to_flag owned))
to_step (chmod_file host path mode) = some (chmod_step path mode)
to_step (remove_path host path recursive) = some (remove_path_step path (to_flag recursive))
