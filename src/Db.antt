-- ===== src/Db.antt =====
-- The SQLite store: src/shichimimi_agent/db.
pub mod Tables
pub mod Repository
