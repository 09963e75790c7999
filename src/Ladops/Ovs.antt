-- ===== src/Ladops/Ovs.antt =====
-- ladops/ovs.py: the `ovs-vsctl` command lines.
use ovn_fabric.Prelude.{ℕ, String, ◌<>◌, List, [], ◌∷◌, map, str, join}

unfoldable pub set_external_id_argv : String → String → List String
set_external_id_argv key value =
    "ovs-vsctl" ∷ "set" ∷ "open_vswitch" ∷ "." ∷ ("external-ids:" <> key <> "=" <> value) ∷ []

unfoldable pub remove_external_id_argv : String → List String
remove_external_id_argv key =
    "ovs-vsctl" ∷ "remove" ∷ "open_vswitch" ∷ "." ∷ "external-ids" ∷ key ∷ []

unfoldable pub add_br_argv : String → List String
add_br_argv bridge = "ovs-vsctl" ∷ "add-br" ∷ bridge ∷ []

unfoldable pub del_br_argv : String → List String
del_br_argv bridge = "ovs-vsctl" ∷ "--if-exists" ∷ "del-br" ∷ bridge ∷ []

unfoldable pub set_bridge_fail_mode_argv : String → String → List String
set_bridge_fail_mode_argv bridge mode =
    "ovs-vsctl" ∷ "set" ∷ "bridge" ∷ bridge ∷ ("fail-mode=" <> mode) ∷ []

unfoldable pub set_bridge_datapath_argv : String → String → List String
set_bridge_datapath_argv bridge datapath_type =
    "ovs-vsctl" ∷ "set" ∷ "bridge" ∷ bridge ∷ ("datapath_type=" <> datapath_type) ∷ []

unfoldable pub set_port_tag_argv : String → ℕ → List String
unfolding str
set_port_tag_argv port tag = "ovs-vsctl" ∷ "set" ∷ "port" ∷ port ∷ ("tag=" <> str tag) ∷ []

unfoldable pub set_port_trunks_argv : String → List ℕ → List String
unfolding str join
set_port_trunks_argv port vlan_ids =
    "ovs-vsctl" ∷ "set" ∷ "port" ∷ port ∷ ("trunks=" <> join "," (map str vlan_ids)) ∷ []

unfoldable pub add_afxdp_port_argv : (bridge port mode : String) → ℕ → List String
unfolding str
add_afxdp_port_argv bridge port mode n_rxq =
    "ovs-vsctl"
    ∷ "add-port"
    ∷ bridge
    ∷ port
    ∷ "--"
    ∷ "set"
    ∷ "Interface"
    ∷ port
    ∷ "type=afxdp"
    ∷ ("options:xdp-mode=" <> mode)
    ∷ ("options:n_rxq=" <> str n_rxq)
    ∷ []

unfoldable pub add_port_argv : (bridge port : String) → List String
add_port_argv bridge port = "ovs-vsctl" ∷ "add-port" ∷ bridge ∷ port ∷ []

unfoldable pub del_port_argv : (bridge port : String) → List String
del_port_argv bridge port = "ovs-vsctl" ∷ "--if-exists" ∷ "del-port" ∷ bridge ∷ port ∷ []
