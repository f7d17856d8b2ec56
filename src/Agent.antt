-- ===== src/Agent.antt =====
-- The cache of agents' answers in composer/spec/agent_index.py.
pub mod Index
pub mod Merge
pub mod Pools
pub mod Round
pub mod Ranked
pub mod Writes
