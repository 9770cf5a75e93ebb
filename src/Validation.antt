-- ===== src/Validation.antt =====
-- crates/lingxi-spec/src/validation.rs: the validation of a workflow document. Issues to Report are the
-- code, the others are proofs.
pub mod Issues
pub mod Paths
pub mod Params
pub mod Edges
pub mod Subgraphs
pub mod References
pub mod Components
pub mod Control
pub mod Report
pub mod Search
pub mod Finished
pub mod Acyclic
pub mod Passed
pub mod Valid
pub mod Examples
pub mod Chains
pub mod Recursion
