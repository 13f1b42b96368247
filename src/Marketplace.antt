-- ===== src/Marketplace.antt =====
-- Candidate filtering and the free time of a node: backend/src/marketplace/.
pub mod Scheduler
pub mod Catalogue
pub mod Rank
