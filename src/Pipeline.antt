-- ===== src/Pipeline.antt =====
-- The pipeline for source code: composer/spec/source/common_pipeline.py, the names of components in
-- composer/spec/system_model.py, and the properties of composer/spec/prop_inference.py.
pub mod Slugs
pub mod Components
pub mod Linked
pub mod Rounds
pub mod Unique
