-- ===== src/Flow/Refinement.antt =====
-- crates/lingxi-runtime/src/control_flow.rs: the scheduler as a run of the abstract machine of Flow.Core.
pub mod Edges
pub mod Gate
pub mod Nodes
pub mod Run
pub mod Inputs
pub mod Each
