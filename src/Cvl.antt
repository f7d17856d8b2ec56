-- ===== src/Cvl.antt =====
-- The schema of a CVL specification file, composer/cvl/schema.py: a class of the schema with a
-- `type` tag is a constructor of the union that it belongs to, any other class is a record.
pub mod Types
pub mod Expression
pub mod Command
pub mod Block
