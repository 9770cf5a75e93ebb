-- ===== src/Context.antt =====
-- crates/lingxi-runtime/src/conversation.rs: the conversations that model calls carry on. Message and
-- Store are the code, the others are proofs.
pub mod Message
pub mod Store
pub mod Limits
pub mod Loss
mod Examples
