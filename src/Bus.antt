-- ===== src/Bus.antt =====
-- crates/lingxi-runtime/src/agent_bus.rs: sessions, agents, messages and configuration revisions.
-- State to Config are the code, the others are proofs.
pub mod State
pub mod Agents
pub mod Messages
pub mod Config
pub mod Sessions
pub mod Queues
pub mod Accept
pub mod Admission
pub mod Activations
pub mod Bounds
pub mod History
pub mod Sound
pub mod Traces
pub mod LetThrough
pub mod Broadcast
pub mod Revisions
pub mod Idempotency
pub mod Table
mod Examples
