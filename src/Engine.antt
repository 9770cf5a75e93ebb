-- ===== src/Engine.antt =====
-- crates/lingxi-runtime/src/engine.rs: the run of a workflow without control flow. Run, Order and
-- Execute are the code, the others are proofs.
pub mod Run
pub mod Order
pub mod Execute
pub mod Nodes
pub mod Builtin
pub mod Declared
pub mod Upstream
pub mod Outcomes
pub mod Counts
pub mod Fair
pub mod Places
pub mod Topological
pub mod Examples
pub mod Tight
pub mod Complete
