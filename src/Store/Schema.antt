-- ===== src/Store/Schema.antt =====
-- store/schema.py: validation against a subset of JSON Schema. `Json` has the values and the schemas,
-- `Validation` the code, `Meaning` what a schema says of a value; the other modules prove.
pub mod Json
pub mod Validation
pub mod Meaning
pub mod Logic
pub mod Checks
pub mod Deciding
mod Tests
