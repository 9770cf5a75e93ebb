-- ===== src/Redact.antt =====
-- apps/desktop/src-tauri/src/redact.rs: what is taken out of events and sessions before they are stored
-- or shown. Scan, Text and Values are the code, the others are proofs.
pub mod Scan
pub mod Text
pub mod Values
pub mod Hidden
pub mod Ends
pub mod Fit
pub mod Total
pub mod Examples
