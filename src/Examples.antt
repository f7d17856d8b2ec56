-- ===== src/Examples.antt =====
-- Runs of the model on small inputs, and its theorems applied to them.
mod Printer
mod Registry
mod Stubs
mod Prover
mod ProverRun
mod Report
mod Agent
mod Io
mod Generation
mod Foundry
mod FoundryTools
mod Coverage
mod Timing
mod Timeline
mod Pipeline
mod Rounds
