-- ===== src/Primitives.antt =====
-- deployer/primitives_*.py: the objects of a host and the primitives that they render to.
pub mod Build
pub mod Ovs
pub mod Ovn
pub mod Docker
pub mod Net
pub mod NetnsLink
pub mod Netns
pub mod Routing
pub mod Inside
pub mod Objects
pub mod Owners
pub mod LinkLaws
pub mod Teardown
