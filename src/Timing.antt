-- ===== src/Timing.antt =====
-- What a run reports of its times, its calls of the prover and its tokens: composer/diagnostics/timing.py.
pub mod Summary
pub mod Amounts
pub mod Accounts
