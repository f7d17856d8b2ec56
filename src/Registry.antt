-- ===== src/Registry.antt =====
-- The registries of composer/spec/natspec/registry.py.
pub mod Store
pub mod Files
pub mod Stubs
