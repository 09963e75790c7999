-- ===== src/Primitives/Ovn/Kinds.antt =====
-- deployer/primitives_ovn.py: the classes of OVN objects and their keys.
use ovn_fabric.Prelude.{ℕ, String, ◌<>◌, Bool, Option, List, str}
use ovn_fabric.Value.{Value}

-- A list of the pairs of an options map.
abbrev pub Pairs : Type 0
Pairs = List (String × String)

pub data OvnObject : Type 0 where
  ls : (name : String) → OvnObject
  lsp :
      (switch name : String) (type : Option String) (addresses : List String) (options : Pairs)
      → OvnObject
  lr : (name : String) (options external_ids : Pairs) → OvnObject
  lrp :
      (router name mac : String) (networks : List String) (gateway_chassis : Option Value)
      (ipv6_ra_configs : Pairs)
      → OvnObject
  route : (router prefix nexthop : String) → OvnObject
  nat : (router type external_ip logical_ip : String) (reset : Bool) → OvnObject
  acl : (switch direction : String) (priority : ℕ) (match action : String) → OvnObject
  nb_connection sb_connection : OvnObject

-- `key` of each class
unfoldable pub ovn_key : OvnObject → String
unfolding str
ovn_key (ls name) = "ovn.ls:" <> name
ovn_key (lsp switch name type addresses options) = "ovn.lsp:" <> switch <> "|" <> name
ovn_key (lr name options external_ids) = "ovn.lr:" <> name
ovn_key (lrp router name mac networks chassis ra) = "ovn.lrp:" <> router <> "|" <> name
ovn_key (route router prefix nexthop) = "ovn.route:" <> router <> "|" <> prefix <> "|" <> nexthop
ovn_key (nat router type external_ip logical_ip reset) =
    "ovn.nat:" <> router <> "|" <> type <> "|" <> external_ip <> "|" <> logical_ip
ovn_key (acl switch direction priority match action) =
    "ovn.acl:" <> switch <> "|" <> direction <> "|" <> str priority <> "|" <> match <> "|" <> action
ovn_key nb_connection = "ovn.nb.connection"
ovn_key sb_connection = "ovn.sb.connection"
