-- ===== src/Db.antt =====
-- backend/src/db: `Migrate` is the runner of migrations (migrate.js).
pub mod Migrate
