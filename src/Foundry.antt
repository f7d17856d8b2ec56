-- ===== src/Foundry.antt =====
-- The author of Foundry tests: composer/foundry.
pub mod State
pub mod Mapping
pub mod Quiet
pub mod Tied
pub mod Runner
pub mod Tools
pub mod Clean
pub mod History
pub mod Steps
pub mod Certified
