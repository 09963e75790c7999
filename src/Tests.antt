-- ===== src/Tests.antt =====
-- The theorems at concrete inputs: `Samples` has the test data, the other children the runs.
pub mod Samples
pub mod Runs
pub mod Graphs
pub mod Plans
pub mod Snapshots
pub mod Resolver
pub mod Fabric
pub mod Firewall
pub mod KernelRouters
pub mod Connections
