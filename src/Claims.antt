-- ===== src/Claims.antt =====
-- Claims: what the extractors propose and how it is ordered and reviewed
-- (apps/api/src/app/domains/claims).
pub mod Precedence
