-- ===== src/Tests/Database.antt =====
-- Examples on PostgreSQL: a database of two tables in memory, whose server always answers.
pub mod Pools
mod Statements
