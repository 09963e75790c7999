-- ===== src/Tests/Samples.antt =====
-- A host, its controllers, a queue and some objects to run the theorems on.
use ovn_fabric.Prelude.{String, true, false, none, some, List, [], ◌∷◌, contains, if◌then◌else◌}
use ovn_fabric.Value.{text, end}
use ovn_fabric.Lifecycle.{
  Host, exec, done, failed, Run, Graph, Controller, Command, Primitive, Operation, primitive,
}
use ovn_fabric.Primitives.Ovs.{OvsObject}
use ovn_fabric.Primitives.Objects.{HostObject, ovs}
use ovn_fabric.Primitives.NetnsLink.{NetnsLink, veth, physical}

-- A command with the word "broken" fails.
abbrev pub host : Host
host trace a = elim a [
  | exec argv timeout ↦ if contains argv "broken" then failed else done ""
  | _ ↦ done ""
]

abbrev pub creator : Controller
creator = record { creating = true; dry_run = false; command_timeout = 600 }

abbrev pub deleter : Controller
deleter = record { creating = false; dry_run = false; command_timeout = 600 }

abbrev pub graph : Graph
graph = record { host = "hv1"; nodes = [] }

abbrev pub run : Run
run = record { store = []; graph = graph; trace = []; warned = [] }

abbrev pub command : String → Command
command word = record {
  label = word;
  argv = text "ip" ∷ text word ∷ [];
  optional = false;
  timeout = none;
}

abbrev pub item : String → String → Primitive
item up down = record {
  key = up;
  nodes = record { id = up; kind = "test"; fields = end } ∷ [];
  create_cmds = command up ∷ [];
  delete_cmds = command down ∷ [];
}

abbrev pub queue : List Operation
queue =
    primitive (item "up" "down")
    ∷ primitive (item "broken" "broken")
    ∷ primitive (item "a" "b")
    ∷ []

abbrev pub bridge : HostObject
bridge = ovs (OvsObject.bridge "br-int" none "secure")

abbrev pub port : HostObject
port = ovs (OvsObject.port "br-int" "eth0" (some 10) [])

abbrev pub device : NetnsLink
device = record {
  host = "hv1";
  netns = "router";
  name = "eth1";
  kind = physical;
  rename_to = some "wan";
  parent = none;
  vlan_id = none;
  mac = none;
  root_leg = none;
  bridge = none;
}

abbrev pub pair : NetnsLink
pair = record {
  host = "hv1";
  netns = "router";
  name = "lan";
  kind = veth;
  rename_to = none;
  parent = none;
  vlan_id = none;
  mac = none;
  root_leg = some "lan-root";
  bridge = some "br-int";
}
