-- ===== src/Ladops/Ovn.antt =====
-- ladops/ovn.py: the `ovn-nbctl` and `ovn-sbctl` command lines.
use ovn_fabric.Prelude.{ℕ, String, ◌<>◌, Option, none, some, List, [], ◌∷◌, ◌++◌, str}
use ovn_fabric.Value.{Value, text}

unfoldable pub lrp_add_argv : (router name mac : String) → List String → List String
lrp_add_argv router name mac networks = "ovn-nbctl" ∷ "lrp-add" ∷ router ∷ name ∷ mac ∷ networks

unfoldable pub lrp_del_argv : String → List String
lrp_del_argv name = "ovn-nbctl" ∷ "--if-exists" ∷ "lrp-del" ∷ name ∷ []

unfoldable pub lr_nat_add_argv : (router nat_type external_ip logical_ip : String) → List String
lr_nat_add_argv router nat_type external_ip logical_ip =
    "ovn-nbctl" ∷ "lr-nat-add" ∷ router ∷ nat_type ∷ external_ip ∷ logical_ip ∷ []

opt_word : Option String → List String
opt_word none = []
opt_word (some s) = s ∷ []

unfoldable pub lr_nat_del_argv : (router nat_type : String) → Option String → List String
unfolding opt_word
lr_nat_del_argv router nat_type external_ip =
    ("ovn-nbctl" ∷ "lr-nat-del" ∷ router ∷ nat_type ∷ []) ++ opt_word external_ip

unfoldable pub lr_add_argv : String → List String
lr_add_argv router = "ovn-nbctl" ∷ "lr-add" ∷ router ∷ []

unfoldable pub lr_set_option_argv : (router key value : String) → List String
lr_set_option_argv router key value =
    "ovn-nbctl" ∷ "set" ∷ "logical_router" ∷ router ∷ ("options:" <> key <> "=" <> value) ∷ []

unfoldable pub lr_del_argv : String → List String
lr_del_argv router = "ovn-nbctl" ∷ "--if-exists" ∷ "lr-del" ∷ router ∷ []

unfoldable pub set_lr_external_id_argv : (router key value : String) → List String
set_lr_external_id_argv router key value =
    "ovn-nbctl" ∷ "set" ∷ "Logical_Router" ∷ router ∷ ("external_ids:" <> key <> "=" <> value) ∷ []

unfoldable pub acl_add_argv :
    (switch direction : String) → ℕ → (match action : String) → List String
unfolding str
acl_add_argv switch direction priority match action =
    "ovn-nbctl" ∷ "acl-add" ∷ switch ∷ direction ∷ str priority ∷ match ∷ action ∷ []

opt_number : Option ℕ → List String
unfolding str
opt_number none = []
opt_number (some n) = str n ∷ []

unfoldable pub acl_del_argv : (switch direction : String) → Option ℕ → Option String → List String
unfolding opt_number opt_word
acl_del_argv switch direction priority match =
    ("ovn-nbctl" ∷ "acl-del" ∷ switch ∷ direction ∷ []) ++ (opt_number priority ++ opt_word match)

unfoldable pub lr_route_add_argv : (router prefix nexthop : String) → List String
lr_route_add_argv router prefix nexthop =
    "ovn-nbctl" ∷ "lr-route-add" ∷ router ∷ prefix ∷ nexthop ∷ []

unfoldable pub lr_route_del_argv : (router prefix nexthop : String) → List String
lr_route_del_argv router prefix nexthop =
    "ovn-nbctl" ∷ "--if-exists" ∷ "lr-route-del" ∷ router ∷ prefix ∷ nexthop ∷ []

-- The chassis token is passed through: a text, or a reference to a captured value.
unfoldable pub lrp_set_gateway_chassis_argv : String → Value → ℕ → List Value
unfolding str
lrp_set_gateway_chassis_argv lrp chassis priority =
    text "ovn-nbctl"
    ∷ text "lrp-set-gateway-chassis"
    ∷ text lrp
    ∷ chassis
    ∷ text (str priority)
    ∷ []

unfoldable pub lrp_set_redirect_chassis_argv : String → List String
lrp_set_redirect_chassis_argv lrp =
    "ovn-nbctl" ∷ "set" ∷ "logical_router_port" ∷ lrp ∷ "options:reside-on-redirect-chassis=true"
    ∷ []

unfoldable pub lrp_set_ipv6_ra_config_argv : (lrp key value : String) → List String
lrp_set_ipv6_ra_config_argv lrp key value =
    "ovn-nbctl"
    ∷ "set"
    ∷ "logical_router_port"
    ∷ lrp
    ∷ ("ipv6_ra_configs:" <> key <> "=" <> value)
    ∷ []

unfoldable pub ls_add_argv : String → List String
ls_add_argv name = "ovn-nbctl" ∷ "ls-add" ∷ name ∷ []

unfoldable pub ls_del_argv : String → List String
ls_del_argv name = "ovn-nbctl" ∷ "--if-exists" ∷ "ls-del" ∷ name ∷ []

unfoldable pub lsp_del_argv : String → List String
lsp_del_argv lsp = "ovn-nbctl" ∷ "--if-exists" ∷ "lsp-del" ∷ lsp ∷ []

unfoldable pub nb_set_connection_argv : String → List String
nb_set_connection_argv target = "ovn-nbctl" ∷ "set-connection" ∷ target ∷ []

unfoldable pub sb_set_connection_argv : String → List String
sb_set_connection_argv target = "ovn-sbctl" ∷ "set-connection" ∷ target ∷ []

unfoldable pub nb_del_connection_argv : List String
nb_del_connection_argv = "ovn-nbctl" ∷ "del-connection" ∷ []

unfoldable pub sb_del_connection_argv : List String
sb_del_connection_argv = "ovn-sbctl" ∷ "del-connection" ∷ []

unfoldable pub sb_chassis_id_by_hostname_argv : String → List String
sb_chassis_id_by_hostname_argv hostname =
    "ovn-sbctl" ∷ "--bare" ∷ "--columns=name" ∷ "find" ∷ "Chassis" ∷ ("hostname=" <> hostname) ∷ []
