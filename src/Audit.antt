-- ===== src/Audit.antt =====
-- The audit module: the tamper-evident log and its verifier.
pub mod Digest
pub mod Chain
