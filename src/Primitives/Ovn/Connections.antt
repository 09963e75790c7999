-- ===== src/Primitives/Ovn/Connections.antt =====
-- deployer/primitives_ovn.py: the connections of the northbound and the southbound database.
use ovn_fabric.Prelude.{[], ◌∷◌}
use ovn_fabric.Value.{text, end, field}
use ovn_fabric.Lifecycle.{Primitive}
use ovn_fabric.Ladops.Ovn
use ovn_fabric.Primitives.Build.{cmd, text_list}
use ovn_fabric.Primitives.Ovn.Kinds.{nb_connection, sb_connection, ovn_key}

unfoldable pub nb_connection_primitive : Primitive
unfolding ovn_key
nb_connection_primitive = record {
  key = ovn_key nb_connection;
  nodes =
      record {
        id = ovn_key nb_connection;
        kind = "ovn.connection";
        fields =
            field "service" (text "nb")
              (field "connections" (text_list ("ptcp:6641:0.0.0.0" ∷ [])) end);
      }
      ∷ [];
  create_cmds = cmd "ovn-nb (set-connection)" (Ovn.nb_set_connection_argv "ptcp:6641:0.0.0.0") ∷ [];
  delete_cmds = cmd "ovn-nb (del-connection)" Ovn.nb_del_connection_argv ∷ [];
}

unfoldable pub sb_connection_primitive : Primitive
unfolding ovn_key
sb_connection_primitive = record {
  key = ovn_key sb_connection;
  nodes =
      record {
        id = ovn_key sb_connection;
        kind = "ovn.connection";
        fields =
            field "service" (text "sb")
              (field "connections" (text_list ("ptcp:6642:0.0.0.0" ∷ [])) end);
      }
      ∷ [];
  create_cmds = cmd "ovn-sb (set-connection)" (Ovn.sb_set_connection_argv "ptcp:6642:0.0.0.0") ∷ [];
  delete_cmds = cmd "ovn-sb (del-connection)" Ovn.sb_del_connection_argv ∷ [];
}
