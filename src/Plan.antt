-- ===== src/Plan.antt =====
-- fabric/plan.py: a `PlanEmitter` takes the calls that declare a scope's operations and keeps them
-- as serialized steps in units of work. `Calls` has the calls, `Units` the emitter.
pub mod Calls
pub mod Units
pub mod Discipline
pub mod Growth
