-- ===== src/Kernel.antt =====
-- The kernel routers of deployer/ir_common.py: their security groups.
pub mod Decimals
pub mod Nodes
pub mod Network
pub mod Container
pub mod Misplaced
pub mod Apps
pub mod Router
pub mod Closed
pub mod Devices
pub mod Places
pub mod Valid
pub mod Stays
pub mod Orderly
pub mod Filters
pub mod Iptables
pub mod Policy
pub mod Rows
pub mod Verdicts
pub mod Refines
pub mod Firewall
