-- ===== src/Jobs.antt =====
-- Duplicate-execution verification and the image allowlist: backend/src/jobs/.
pub mod Verification
pub mod ImageAllowlist
