-- ===== src/Sqlite.antt =====
-- src/sqlite: the lockers and storages over a SQLite database. A statement is its effect on the tables
-- that it names; the clock of the database stands beside them.
pub mod Tables
pub mod EventLocker
pub mod ViewLocker
pub mod ObjectStorage
pub mod EventStorage
pub mod ObjectView
