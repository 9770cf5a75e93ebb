-- ===== src/Workflow.antt =====
-- crates/lingxi-spec: workflow documents and the ports of node kinds.
pub mod Ports
pub mod Model
pub mod GateBudget
pub mod Examples
