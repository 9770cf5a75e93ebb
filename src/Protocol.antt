-- ===== src/Protocol.antt =====
-- crates/lingxi-runtime/src/agent_protocol.rs: the data that agents exchange, and its validation.
pub mod States
pub mod MessageKinds
pub mod MessageStatus
pub mod ConfigStatus
pub mod Float
pub mod Config
pub mod Json
pub mod Schema
pub mod Payloads
pub mod Envelope
pub mod Session
