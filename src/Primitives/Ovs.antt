-- ===== src/Primitives/Ovs.antt =====
-- deployer/primitives_ovs.py: the OVS objects and the primitives that they render to.
use ovn_fabric.Prelude.{ℕ, String, ◌<>◌, Option, none, some, List, [], ◌∷◌, ◌++◌, join}
use ovn_fabric.Value.{text, num, arr, obj, nil, end, field}
use ovn_fabric.Lifecycle.{Command, Primitive}
use ovn_fabric.Ladops.Ovs
use ovn_fabric.Primitives.Build.{cmd, text_list, num_list}

pub data OvsObject : Type 0 where
  bridge : (name : String) (datapath : Option String) (fail_mode : String) → OvsObject
  port : (bridge port : String) (tag : Option ℕ) (trunks : List ℕ) → OvsObject
  afxdp_port : (bridge port mode : String) (n_rxq : ℕ) (trunks : List ℕ) → OvsObject
  mapping : (mappings : List String) → OvsObject
  external_id : (key_name value : String) → OvsObject
  ipfix : (bridge script : String) → OvsObject

-- `key` of each class
unfoldable pub ovs_key : OvsObject → String
ovs_key (bridge name datapath fail_mode) = "ovs.bridge:" <> name
ovs_key (port br p tag trunks) = "ovs.port:" <> p
ovs_key (afxdp_port br p mode n_rxq trunks) = "ovs.port:" <> p
ovs_key (mapping mappings) = "ovs.mapping:ovn-bridge-mappings"
ovs_key (external_id key_name value) = "ovs.external-id:" <> key_name
ovs_key (ipfix br script) = "ovs.ipfix:" <> br

set_datapath : String → Option String → List Command
set_datapath name none = []
set_datapath name (some datapath) =
    cmd ("bridge:" <> name <> " (datapath)") (Ovs.set_bridge_datapath_argv name datapath) ∷ []

unfoldable pub bridge_primitive : (name : String) → Option String → (fail_mode : String) → Primitive
unfolding set_datapath ovs_key
bridge_primitive name datapath fail_mode = record {
  key = ovs_key (bridge name datapath fail_mode);
  nodes =
      record {
        id = ovs_key (bridge name datapath fail_mode);
        kind = "ovs.bridge";
        fields =
            field "name" (text name)
              (field "portRefs" (arr nil) (field "externalIds" (obj end) end));
      }
      ∷ [];
  create_cmds =
      cmd ("bridge:" <> name <> " (create)") (Ovs.add_br_argv name)
      ∷ (set_datapath name datapath
          ++ (cmd ("bridge:" <> name <> " (fail-mode)")
                (Ovs.set_bridge_fail_mode_argv name fail_mode)
              ∷ []));
  delete_cmds = cmd ("bridge:" <> name <> " (delete)") (Ovs.del_br_argv name) ∷ [];
}

set_tag : String → Option ℕ → List Command
set_tag p none = []
set_tag p (some tag) = cmd ("port:" <> p <> " (tag)") (Ovs.set_port_tag_argv p tag) ∷ []

set_trunks : String → List ℕ → List Command
set_trunks p [] = []
set_trunks p trunks = cmd ("port:" <> p <> " (trunks)") (Ovs.set_port_trunks_argv p trunks) ∷ []

unfoldable pub port_primitive : (bridge port : String) → Option ℕ → List ℕ → Primitive
unfolding set_tag set_trunks ovs_key
port_primitive br p tag trunks = record {
  key = ovs_key (port br p tag trunks);
  nodes =
      record {
        id = ovs_key (port br p tag trunks);
        kind = "ovs.port";
        fields = field "bridgeRef" (text ("ovs.bridge:" <> br)) (
            field "name" (text p) (
              field "trunks" (num_list trunks)
                (field "ifaceRefs" (arr nil) (field "externalIds" (obj end) end))));
      }
      ∷ [];
  create_cmds =
      cmd ("port:" <> p <> " (create)") (Ovs.add_port_argv br p)
      ∷ (set_tag p tag ++ set_trunks p trunks);
  delete_cmds = cmd ("port:" <> p <> " (delete)") (Ovs.del_port_argv br p) ∷ [];
}

unfoldable pub afxdp_port_primitive : (bridge port mode : String) → ℕ → List ℕ → Primitive
unfolding set_trunks ovs_key
afxdp_port_primitive br p mode n_rxq trunks = record {
  key = ovs_key (afxdp_port br p mode n_rxq trunks);
  nodes =
      record {
        id = ovs_key (afxdp_port br p mode n_rxq trunks);
        kind = "ovs.port";
        fields = field "bridgeRef" (text ("ovs.bridge:" <> br)) (
            field "name" (text p) (
              field "trunks" (num_list trunks) (
                field "ifaceRefs" (arr nil) (
                  field "externalIds" (obj end) (
                    field "type" (text "afxdp") (
                      field "options"
                        (obj (field "xdp-mode" (text mode) (field "n_rxq" (num n_rxq) end)))
                        end))))));
      }
      ∷ [];
  create_cmds =
      cmd ("port:" <> p <> " (create)") (Ovs.add_afxdp_port_argv br p mode n_rxq)
      ∷ set_trunks p trunks;
  delete_cmds = cmd ("port:" <> p <> " (delete)") (Ovs.del_port_argv br p) ∷ [];
}

unfoldable pub mapping_primitive : List String → Primitive
unfolding join ovs_key
mapping_primitive mappings = record {
  key = ovs_key (mapping mappings);
  nodes =
      record {
        id = ovs_key (mapping mappings);
        kind = "ovs.mapping";
        fields = field "name" (text "ovn-bridge-mappings") (
            field "mappings" (text_list mappings) (
              field "externalIds" (obj (field "ovn-bridge-mappings" (text (join "," mappings)) end))
                end));
      }
      ∷ [];
  create_cmds =
      cmd "mapping:ovn-bridge-mappings (set)"
        (Ovs.set_external_id_argv "ovn-bridge-mappings" (join "," mappings))
      ∷ [];
  delete_cmds =
      cmd "mapping:ovn-bridge-mappings (remove)" (Ovs.remove_external_id_argv "ovn-bridge-mappings")
      ∷ [];
}

unfoldable pub external_id_primitive : (key_name value : String) → Primitive
unfolding ovs_key
external_id_primitive key_name value = record {
  key = ovs_key (external_id key_name value);
  nodes =
      record {
        id = ovs_key (external_id key_name value);
        kind = "ovs.external-id";
        fields = field "key" (text key_name) (field "value" (text value) end);
      }
      ∷ [];
  create_cmds =
      cmd ("ovs external-id:" <> key_name <> " (set)") (Ovs.set_external_id_argv key_name value)
      ∷ [];
  delete_cmds =
      cmd ("ovs external-id:" <> key_name <> " (remove)") (Ovs.remove_external_id_argv key_name)
      ∷ [];
}

unfoldable pub ipfix_primitive : (bridge script : String) → Primitive
unfolding ovs_key
ipfix_primitive br script = record {
  key = ovs_key (ipfix br script);
  nodes =
      record {
        id = ovs_key (ipfix br script);
        kind = "ovs.ipfix";
        fields = field "bridgeRef" (text ("ovs.bridge:" <> br)) end;
      }
      ∷ [];
  create_cmds = cmd ("ipfix:" <> br) ("sh" ∷ "-c" ∷ script ∷ []) ∷ [];
  delete_cmds =
      cmd ("ipfix:" <> br <> " (clear)")
        ("ovs-vsctl" ∷ "--if-exists" ∷ "clear" ∷ "Bridge" ∷ br ∷ "ipfix" ∷ [])
      ∷ [];
}

-- `as_primitive` of each class
unfoldable pub ovs_primitive : OvsObject → Primitive
unfolding bridge_primitive port_primitive afxdp_port_primitive mapping_primitive
    external_id_primitive ipfix_primitive
ovs_primitive (bridge name datapath fail_mode) = bridge_primitive name datapath fail_mode
ovs_primitive (port br p tag trunks) = port_primitive br p tag trunks
ovs_primitive (afxdp_port br p mode n_rxq trunks) = afxdp_port_primitive br p mode n_rxq trunks
ovs_primitive (mapping mappings) = mapping_primitive mappings
ovs_primitive (external_id key_name value) = external_id_primitive key_name value
ovs_primitive (ipfix br script) = ipfix_primitive br script
