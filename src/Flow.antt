-- ===== src/Flow.antt =====
-- crates/lingxi-runtime/src/control_flow.rs: the scheduler of workflows with control edges. State to
-- Run are the code, Core is the abstract machine, and the others are proofs.
pub mod State
pub mod Ready
pub mod Edges
pub mod Gate
pub mod Nodes
pub mod Composite
pub mod Run
pub mod Core
pub mod Refinement
pub mod Budget
pub mod Invariants
pub mod Settled
pub mod Ended
pub mod Termination
pub mod Examples
pub mod Branches
