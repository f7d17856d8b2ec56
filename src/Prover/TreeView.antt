-- ===== src/Prover/TreeView.antt =====
-- The tree view of a prover run, flattened to results: composer/prover/results.py.
pub mod CallTrace
pub mod Flatten
pub mod Final
pub mod FinalLaws
pub mod FlattenLaws
pub mod Messages
pub mod Errors
pub mod Returns
