-- ===== src/Cluster.antt =====
-- deployer/ir_common.py: the declaration of the cluster (`_emit_cluster_body`): the switches, routers,
-- ports, NAT, ACLs and routes that an IR asks for. `Nodes` has the IR, `Groups` its tables, `Matches`,
-- `Acls`, `Routes` and `Routers` the parts of a router, `Body` the whole.
pub mod Nodes
pub mod Sorting
pub mod Groups
pub mod Matches
pub mod Acls
pub mod Routes
pub mod Routers
pub mod Body
pub mod Orderly
pub mod Owned
pub mod Kept
pub mod OwnedAcls
pub mod OwnedRouters
pub mod OwnersFirst
pub mod Valid
pub mod Choices
pub mod Prefixes
