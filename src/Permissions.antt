-- ===== src/Permissions.antt =====
-- crates/lingxi-runtime/src/permissions.rs: policies, modes, cached approvals and the audit trail.
-- Policy to Authorize are the code, the others are proofs.
pub mod Policy
pub mod Targets
pub mod Resolution
pub mod Commands
pub mod Manager
pub mod Authorize
pub mod Keys
pub mod Revocation
pub mod Modes
pub mod Isolation
pub mod Grants
pub mod Audit
mod Examples
