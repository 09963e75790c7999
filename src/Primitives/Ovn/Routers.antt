-- ===== src/Primitives/Ovn/Routers.antt =====
-- deployer/primitives_ovn.py: logical routers, their ports, routes and address translations.
use ovn_fabric.Prelude.{String, ◌<>◌, Bool, true, false, Option, none, some, List, [], ◌∷◌, ◌++◌}
use ovn_fabric.Value.{Value, null, text, arr, obj, nil, cons, end, field}
use ovn_fabric.Lifecycle.{Command, Primitive}
use ovn_fabric.Ladops.Ovn
use ovn_fabric.Primitives.Build.{cmd, text_list, sort_pairs, dict_of}
use ovn_fabric.Primitives.Ovn.Kinds.{Pairs, lr, lrp, route, nat, ovn_key}

lr_options : String → Pairs → List Command
lr_options name [] = []
lr_options name ((key, value) ∷ rest) =
    cmd ("lr:" <> name <> " (option " <> key <> ")") (Ovn.lr_set_option_argv name key value)
    ∷ lr_options name rest

lr_external_ids : String → Pairs → List Command
lr_external_ids name [] = []
lr_external_ids name ((key, value) ∷ rest) =
    cmd ("lr:" <> name <> " (external id " <> key <> ")")
      (Ovn.set_lr_external_id_argv name key value)
    ∷ lr_external_ids name rest

unfoldable pub lr_primitive : (name : String) (options external_ids : Pairs) → Primitive
unfolding lr_options lr_external_ids ovn_key
lr_primitive name options external_ids = record {
  key = ovn_key (lr name options external_ids);
  nodes =
      record {
        id = ovn_key (lr name options external_ids);
        kind = "ovn.lr";
        fields = field "name" (text name) (
            field "options" (dict_of options) (
              field "portRefs" (arr nil) (
                field "routeRefs" (arr nil) (
                  field "natRefs" (arr nil) (
                    field "aclRefs" (arr nil) (field "externalIds" (dict_of external_ids) end))))));
      }
      ∷ [];
  create_cmds =
      cmd ("lr:" <> name <> " (create)") (Ovn.lr_add_argv name)
      ∷ (lr_options name (sort_pairs options) ++ lr_external_ids name (sort_pairs external_ids));
  delete_cmds = cmd ("lr:" <> name <> " (delete)") (Ovn.lr_del_argv name) ∷ [];
}

pin_chassis : String → Option Value → List Command
pin_chassis name none = []
pin_chassis name (some chassis) =
    record {
      label = "lrp:" <> name <> " (gateway chassis)";
      argv = Ovn.lrp_set_gateway_chassis_argv name chassis 100;
      optional = false;
      timeout = none;
    }
    ∷ cmd ("lrp:" <> name <> " (redirect chassis)") (Ovn.lrp_set_redirect_chassis_argv name)
    ∷ []

ra_configs : String → Pairs → List Command
ra_configs name [] = []
ra_configs name ((key, value) ∷ rest) =
    cmd ("lrp:" <> name <> " (ipv6_ra " <> key <> ")")
      (Ovn.lrp_set_ipv6_ra_config_argv name key value)
    ∷ ra_configs name rest

chassis_list : Option Value → Value
chassis_list none = arr nil
chassis_list (some chassis) = arr (cons chassis nil)

unfoldable pub lrp_primitive :
    (router name mac : String) → (networks : List String) → Option Value → Pairs → Primitive
unfolding pin_chassis ra_configs chassis_list ovn_key
lrp_primitive router name mac networks chassis ra = record {
  key = ovn_key (lrp router name mac networks chassis ra);
  nodes =
      record {
        id = ovn_key (lrp router name mac networks chassis ra);
        kind = "ovn.lrp";
        fields = field "routerRef" (text ("ovn.lr:" <> router)) (
            field "name" (text name) (
              field "mac" (text mac) (
                field "networks" (text_list networks) (
                  field "gatewayChassis" (chassis_list chassis)
                    (field "ipv6RaConfigs" (dict_of ra) (field "externalIds" (obj end) end))))));
      }
      ∷ [];
  create_cmds =
      cmd ("lrp:" <> name <> " (create)") (Ovn.lrp_add_argv router name mac networks)
      ∷ (pin_chassis name chassis ++ ra_configs name (sort_pairs ra));
  delete_cmds = cmd ("lrp:" <> name <> " (delete)") (Ovn.lrp_del_argv name) ∷ [];
}

unfoldable pub route_primitive : (router prefix nexthop : String) → Primitive
unfolding ovn_key
route_primitive router prefix nexthop = record {
  key = ovn_key (route router prefix nexthop);
  nodes =
      record {
        id = ovn_key (route router prefix nexthop);
        kind = "ovn.route";
        fields = field "routerRef" (text ("ovn.lr:" <> router)) (
            field "prefix" (text prefix)
              (field "nexthop" (text nexthop) (field "externalIds" (obj end) end)));
      }
      ∷ [];
  create_cmds =
      cmd ("route:" <> prefix <> " (create)") (Ovn.lr_route_add_argv router prefix nexthop) ∷ [];
  delete_cmds =
      cmd ("route:" <> prefix <> " (delete)") (Ovn.lr_route_del_argv router prefix nexthop) ∷ [];
}

nat_reset : Bool → (router type external_ip : String) → List Command
nat_reset true router type external_ip =
    cmd ("nat:" <> router <> "/" <> external_ip <> " (reset)")
      (Ovn.lr_nat_del_argv router type (some external_ip))
    ∷ []
nat_reset false router type external_ip = []

unfoldable pub nat_primitive : (router type external_ip logical_ip : String) → Bool → Primitive
unfolding nat_reset ovn_key
nat_primitive router type external_ip logical_ip reset = record {
  key = ovn_key (nat router type external_ip logical_ip reset);
  nodes =
      record {
        id = ovn_key (nat router type external_ip logical_ip reset);
        kind = "ovn.nat";
        fields = field "routerRef" (text ("ovn.lr:" <> router)) (
            field "type" (text type) (
              field "externalIp" (text external_ip) (
                field "logicalIp" (text logical_ip) (
                  field "externalMac" null
                    (field "logicalPort" null (field "externalIds" (obj end) end))))));
      }
      ∷ [];
  create_cmds =
      nat_reset reset router type external_ip
      ++ (cmd ("nat:" <> router <> "/" <> external_ip <> " (create)")
            (Ovn.lr_nat_add_argv router type external_ip logical_ip)
          ∷ []);
  delete_cmds =
      cmd ("nat:" <> router <> "/" <> external_ip <> " (delete)")
        (Ovn.lr_nat_del_argv router type (some external_ip))
      ∷ [];
}
