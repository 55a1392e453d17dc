-- ===== src/Store.antt =====
-- internal/store: the tables and the statements that the program runs on them.
pub mod Tables
pub mod Sql
pub mod Jobs
pub mod Incidents
pub mod Evidence
pub mod Analysis
pub mod Review
pub mod Accounts
pub mod Notebook
pub mod Notifications
pub mod Retrieval
