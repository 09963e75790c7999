-- ===== src/Primitives/Ovn.antt =====
-- deployer/primitives_ovn.py: the OVN northbound objects and the primitives that they render to.
-- Their probes only describe how to look an object up, and are never run.
pub mod Kinds
pub mod Switches
pub mod Routers
pub mod Connections
use ovn_fabric.Lifecycle.{Primitive}
pub use Kinds.{OvnObject}
unfoldable pub use Kinds.{ovn_key}
use ovn_fabric.Primitives.Ovn.Kinds.{
  Pairs, ls, lsp, lr, lrp, route, nat, acl, nb_connection, sb_connection,
}
unfoldable pub use Switches.{ls_primitive, lsp_primitive, acl_primitive}
unfoldable pub use Routers.{lr_primitive, lrp_primitive, route_primitive, nat_primitive}
unfoldable pub use Connections.{nb_connection_primitive, sb_connection_primitive}

-- `as_primitive` of each class
unfoldable pub ovn_primitive : OvnObject → Primitive
unfolding ls_primitive lsp_primitive lr_primitive lrp_primitive route_primitive nat_primitive
    acl_primitive nb_connection_primitive sb_connection_primitive
ovn_primitive (ls name) = ls_primitive name
ovn_primitive (lsp switch name type addresses options) =
    lsp_primitive switch name type addresses options
ovn_primitive (lr name options external_ids) = lr_primitive name options external_ids
ovn_primitive (lrp router name mac networks chassis ra) =
    lrp_primitive router name mac networks chassis ra
ovn_primitive (route router prefix nexthop) = route_primitive router prefix nexthop
ovn_primitive (nat router type external_ip logical_ip reset) =
    nat_primitive router type external_ip logical_ip reset
ovn_primitive (acl switch direction priority match action) =
    acl_primitive switch direction priority match action
ovn_primitive nb_connection = nb_connection_primitive
ovn_primitive sb_connection = sb_connection_primitive
