-- ===== src/Primitives/NetnsLink.antt =====
-- deployer/primitives_net.py, `NetnsLinkPrimitive`: a link that is made in the root namespace and
-- moved into a namespace.
use ovn_fabric.Prelude.{
  ℕ, String, ◌<>◌, true, Option, none, some, List, [], ◌∷◌, ◌++◌, str_eq, if◌then◌else◌, ◌>>=◌,
}
use ovn_fabric.Value.{Value, text, num, bool, arr, obj, nil, cons, Fields, end, field}
use ovn_fabric.Lifecycle.{Command, Primitive, RawNodeTemplate}
use ovn_fabric.Ladops.Net.{
  netns_exec_argv, add_vlan_argv, add_veth_argv, add_dummy_argv, set_link_up_argv, delete_link_argv,
  add_if_to_netns_argv,
}
use ovn_fabric.Ladops.Ovs
use ovn_fabric.Primitives.Build.{cmd}
use ovn_fabric.Primitives.Net.{global_netns}

pub data LinkKind : Type 0 where
  vlan veth dummy physical : LinkKind

pub record NetnsLink : Type 0 where
  pub host : String
  pub netns : String
  pub name : String
  pub kind : LinkKind
  pub rename_to : Option String
  pub parent : Option String
  pub vlan_id : Option ℕ
  pub mac : Option String
  pub root_leg : Option String
  pub bridge : Option String

-- `x or y`: an empty text counts as none.
unfoldable pub or_else : Option String → String → String
or_else none y = y
or_else (some x) y = if str_eq x "" then y else x

unfoldable pub final_name : NetnsLink → String
unfolding or_else
final_name l = or_else l.rename_to l.name

-- `ref`
unfoldable pub link_key : NetnsLink → String
link_key l = "link:" <> l.netns <> "|" <> final_name l

unfoldable pub root_key : String → String
root_key root_leg = "link:" <> global_netns <> "|" <> root_leg

kind_text : LinkKind → String
kind_text vlan = "vlan"
kind_text veth = "veth"
kind_text dummy = "dummy"
kind_text physical = "physical"

-- The port of the root leg on its bridge.
port_cmds : NetnsLink → String → Option String → List Command
port_cmds l root none = []
port_cmds l root (some bridge) =
    cmd (l.host <> ":veth " <> root <> " (port)") (Ovs.add_port_argv bridge root) ∷ []

unfoldable pub port_nodes : String → Option String → List RawNodeTemplate
port_nodes root none = []
port_nodes root (some bridge) =
    record {
      id = "ovs.port:" <> root;
      kind = "ovs.port";
      fields = field "bridgeRef" (text ("ovs.bridge:" <> bridge)) (
          field "name" (text root) (
            field "trunks" (arr nil)
              (field "ifaceRefs" (arr nil) (field "externalIds" (obj end) end))));
    }
    ∷ []

unfoldable pub root_node : NetnsLink → String → RawNodeTemplate
unfolding root_key
root_node l root = record {
  id = root_key root;
  kind = "link";
  fields = field "netnsRef" (text ("netns:" <> global_netns)) (
      field "ifname" (text root) (
        field "ifindex" (num 0) (
          field "linkKind" (text "veth") (
            field "peerRefs" (arr (cons (text (link_key l)) nil))
              (field "adminUp" (bool true) end)))));
}

-- How the link is made, with the nodes of its root side; none for an argument that is missing
-- (its `ValueError`).
unfoldable pub made : NetnsLink → LinkKind → Option (List Command × List RawNodeTemplate)
unfolding port_cmds port_nodes
made l vlan = l.parent >>= λ parent. l.vlan_id >>= λ vlan_id. some (
  cmd (l.host <> ":vlan " <> l.name <> " (create)") (add_vlan_argv parent l.name vlan_id) ∷ [],
  [],
)
made l veth = l.root_leg >>= λ root. some (
  cmd (l.host <> ":veth " <> l.name <> " (create)") (add_veth_argv root l.name l.mac)
      ∷ cmd (l.host <> ":veth " <> root <> " (up)") (set_link_up_argv root)
      ∷ port_cmds l root l.bridge,
  port_nodes root l.bridge ++ (root_node l root ∷ []),
)
made l dummy =
    some (cmd (l.host <> ":dummy " <> l.name <> " (create)") (add_dummy_argv l.name) ∷ [], [])
made l physical = some ([], [])

move_cmds : NetnsLink → LinkKind → List Command
move_cmds l physical = []
move_cmds l _ =
    cmd (l.host <> ":link " <> l.name <> " (move)") (add_if_to_netns_argv l.name l.netns) ∷ []

rename_cmds : NetnsLink → Option String → List Command
rename_cmds l none = []
rename_cmds l (some rename_to) =
    cmd (l.host <> ":link " <> l.name <> " (rename)")
      (netns_exec_argv ("ip" ∷ "link" ∷ "set" ∷ l.name ∷ "name" ∷ rename_to ∷ []) (some l.netns))
    ∷ []

-- The steps of CREATE after the link is made: move, rename, up.
unfoldable pub settle_cmds : NetnsLink → List Command
unfolding move_cmds rename_cmds
settle_cmds l =
    move_cmds l l.kind
    ++ (rename_cmds l l.rename_to
        ++ (cmd (l.host <> ":link " <> final_name l <> " (up)")
              (netns_exec_argv ("ip" ∷ "link" ∷ "set" ∷ final_name l ∷ "up" ∷ []) (some l.netns))
            ∷ []))

peer_refs : LinkKind → Option String → Value
unfolding root_key
peer_refs veth (some root) = arr (cons (text (root_key root)) nil)
peer_refs _ _ = arr nil

mac_field : Option String → Fields
mac_field none = end
mac_field (some mac) = if str_eq mac "" then end else field "mac" (text mac) end

unfoldable pub link_node : NetnsLink → RawNodeTemplate
unfolding peer_refs mac_field kind_text
link_node l = record {
  id = link_key l;
  kind = "link";
  fields = field "netnsRef" (text ("netns:" <> l.netns)) (
      field "ifname" (text (final_name l)) (
        field "ifindex" (num 0) (
          field "linkKind" (text (kind_text l.kind)) (
            field "peerRefs" (peer_refs l.kind l.root_leg)
              (field "adminUp" (bool true) (mac_field l.mac))))));
}

-- The commands of DELETE. A veth is deleted by its root leg, any other link by its name.
unlink_cmds : NetnsLink → LinkKind → Option String → Option String → List Command
unlink_cmds l veth (some root) (some bridge) =
    cmd (l.host <> ":veth " <> root <> " (port delete)") (Ovs.del_port_argv bridge root)
    ∷ cmd (l.host <> ":veth " <> root <> " (delete)")
        (delete_link_argv (or_else (some root) l.name))
    ∷ []
unlink_cmds l veth (some root) none =
    cmd (l.host <> ":veth " <> root <> " (delete)") (delete_link_argv (or_else (some root) l.name))
    ∷ []
unlink_cmds l veth none bridge =
    cmd (l.host <> ":veth None (delete)") (delete_link_argv l.name) ∷ []
unlink_cmds l _ root bridge =
    cmd (l.host <> ":link " <> l.name <> " (delete)")
      (netns_exec_argv (delete_link_argv l.name) (some l.netns))
    ∷ []

-- `as_primitive`
unfoldable pub netns_link_primitive : NetnsLink → Option Primitive
unfolding unlink_cmds
netns_link_primitive l = made l l.kind >>= λ (cmds, nodes). some (record {
  key = link_key l;
  nodes = nodes ++ (link_node l ∷ []);
  create_cmds = cmds ++ settle_cmds l;
  delete_cmds = unlink_cmds l l.kind l.root_leg l.bridge;
})
