-- ===== src/Psbt.antt =====
-- core/psbt_engine: inspection, key handling and signing of one PSBT.
pub mod Wally
pub mod Ownership
pub mod Summary
pub mod Inspect
pub mod Vsize
pub mod Signability
pub mod Findings
pub mod Summarise
pub mod Engine
pub mod Tests
