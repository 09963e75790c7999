-- ===== src/Units.antt =====
-- fabric/units.py: units of work as data. `Steps` has the steps and the two directions, `Json` the
-- JSON of a raw node's fields.
pub mod Json
pub mod JsonLaws
pub mod Steps
pub mod RoundTrip
