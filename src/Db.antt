-- ===== src/Db.antt =====
-- The enums and rows of app/db, and the session that holds the rows.
pub mod Enums
pub mod Models
pub mod Session
pub mod Tables
