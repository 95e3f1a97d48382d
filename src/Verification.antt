-- ===== src/Verification.antt =====
-- Verification: which facts a verified page may publish, and what holds a candidate up
-- (apps/api/src/app/domains/verification).
pub mod Policy
pub mod Readiness
pub mod Examples
