-- ===== src/Prover.antt =====
-- Runs of the prover and their results: composer/prover.
pub mod Types
pub mod TreeView
pub mod Cloud
pub mod Run
pub mod Statuses
pub mod Reading
pub mod Reported
pub mod Polled
