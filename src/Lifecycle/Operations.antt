-- ===== src/Lifecycle/Operations.antt =====
-- deployer/lifecycle.py and deployer/primitives_fs.py: the operations of a unit of work as data,
-- and the filling in of their references.
use ovn_fabric.Prelude.{ℕ, String, ◌<>◌, Bool, Option, List, map, Dict}
use ovn_fabric.Value.{Value, text, end, field, resolve, resolve_fields, resolve_list}
use ovn_fabric.Lifecycle.RawGraph.{RawNodeTemplate}

-- `Command`. Limits are in whole seconds.
pub record Command : Type 0 where
  pub label : String
  pub argv : List Value
  pub optional : Bool
  pub timeout : Option ℕ

-- `Primitive` (its `probe` is never run)
pub record Primitive : Type 0 where
  pub key : String
  pub nodes : List RawNodeTemplate
  pub create_cmds : List Command
  pub delete_cmds : List Command

-- `CaptureOperation`
pub record Capture : Type 0 where
  pub name : String
  pub label : String
  pub argv : List Value
  pub optional : Bool
  pub retries : ℕ
  pub restart_unit : Option String
  pub result_key : Option String

pub data Operation : Type 0 where
  primitive : Primitive → Operation
  write_file : (path content : String) (mode : Option ℕ) → Operation
  capture : Capture → Operation
  symlink_netns : (container : String) (pid : Value) → Operation
  directory : (host path : String) (owned : Bool) → Operation
  chmod_file : (host path mode : String) → Operation
  remove_path : (host path : String) (recursive : Bool) → Operation

-- The raw nodes of the file-system objects (primitives_fs.py).
unfoldable pub directory_key : String → String
directory_key path = "fs.dir:" <> path

unfoldable pub chmod_key : String → String
chmod_key path = "fs.chmod:" <> path

unfoldable pub path_key : String → String
path_key path = "fs.path:" <> path

unfoldable pub directory_node : String → RawNodeTemplate
unfolding directory_key
directory_node path = record {
  id = directory_key path;
  kind = "fs.dir";
  fields = field "path" (text path) end;
}

unfoldable pub chmod_node : String → String → RawNodeTemplate
unfolding chmod_key
chmod_node path mode = record {
  id = chmod_key path;
  kind = "fs.chmod";
  fields = field "path" (text path) (field "mode" (text mode) end);
}

-- `_resolve` on an operation: every reference in its fields is filled in.
unfoldable pub resolve_command : Dict Value → Command → Command
unfolding resolve_list
resolve_command store cmd = record cmd { argv = resolve_list store cmd.argv }

unfoldable pub resolve_node : Dict Value → RawNodeTemplate → RawNodeTemplate
unfolding resolve
resolve_node store t = record t { fields = resolve_fields store t.fields }

unfoldable pub resolve_primitive : Dict Value → Primitive → Primitive
unfolding resolve_command resolve_node
resolve_primitive store p = record p {
  nodes = map (resolve_node store) p.nodes;
  create_cmds = map (resolve_command store) p.create_cmds;
  delete_cmds = map (resolve_command store) p.delete_cmds;
}

unfoldable pub resolve_operation : Dict Value → Operation → Operation
unfolding resolve_primitive resolve_list resolve
resolve_operation store (primitive p) = primitive (resolve_primitive store p)
resolve_operation store (capture k) = capture (record k { argv = resolve_list store k.argv })
resolve_operation store (symlink_netns container pid) = symlink_netns container (resolve store pid)
resolve_operation store (write_file path content mode) = write_file path content mode
resolve_operation store (directory h path owned) = directory h path owned
resolve_operation store (chmod_file h path mode) = chmod_file h path mode
resolve_operation store (remove_path h path recursive) = remove_path h path recursive
