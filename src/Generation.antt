-- ===== src/Generation.antt =====
-- The generation of specifications: composer/spec/cvl_generation.py and composer/spec/source.
pub mod Types
pub mod Gate
pub mod Mapping
pub mod Edit
pub mod Tools
pub mod Fits
pub mod Mapped
pub mod Frame
pub mod Skips
pub mod Approvals
pub mod Published
pub mod Verified
pub mod Config
pub mod Links
