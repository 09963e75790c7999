-- ===== src/Lifecycle.antt =====
-- deployer/lifecycle.py and deployer/primitives_fs.py: the operations of a unit of work, the
-- controller that runs a queue of them, and its policy of limits and errors.
pub mod RawGraph
pub mod Effects
pub mod Operations
pub mod Commands
pub mod Steps
pub mod Queue
pub mod Order
pub mod BestEffort
pub mod GraphLaws
pub mod Inversion
pub mod Captures
pub mod Strict
unfoldable pub use RawGraph.*
unfoldable pub use Effects.*
unfoldable pub use Operations.*
unfoldable pub use Commands.*
unfoldable pub use Steps.*
unfoldable pub use Queue.*
