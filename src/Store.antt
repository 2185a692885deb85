-- ===== src/Store.antt =====
-- The store (internal/store): the schema with its SQL statements, the operations on it, and what
-- holds of every history of their calls.
pub mod Schema
pub mod Sql
pub mod Migrations
pub mod Operators
pub mod Sessions
pub mod SetupTokens
pub mod Audit
pub mod Preservation
pub mod Respects
pub mod Operations
pub mod Valid
pub mod History
pub mod Atomicity
pub mod Ownership
