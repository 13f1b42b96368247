-- ===== src/Auth.antt =====
-- Accounts, sessions, tokens and rate limits: backend/src/auth/.
pub mod RateLimit
pub mod Accounts
pub mod Tokens
