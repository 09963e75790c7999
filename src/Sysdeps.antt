-- ===== src/Sysdeps.antt =====
-- fabric/services/sysdeps.py, `_Resolver`: requests for packages, the queue that they share and the
-- worker that drains it. `Manager` is the package manager with the clock, `Worker` the jobs,
-- `Requests` the requests.
pub mod Manager
pub mod Names
pub mod Worker
pub mod Requests
pub mod Counts
pub mod Steps
pub mod Settling
pub mod Places
pub mod Regular
pub mod Balance
pub mod Invariant
pub mod Drain
pub mod Response
pub mod Lost
pub mod Queries
pub mod Options
