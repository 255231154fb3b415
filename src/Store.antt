-- ===== src/Store.antt =====
-- internal/store/postgres.go: each method is an action on a database that may refuse any statement.
-- The tables, keys and references are those of internal/store/migrations.
pub mod World
pub mod Agents
pub mod Groups
pub mod Packages
pub mod Inventory
pub mod Jobs
pub mod Steps
pub mod Rows
pub mod Sound
