-- ===== src/Ladops.antt =====
-- ladops/: the command lines for OVN, OVS, links and namespaces.
pub mod Ovn
pub mod Ovs
pub mod Net
