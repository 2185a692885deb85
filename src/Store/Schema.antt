-- ===== src/Store/Schema.antt =====
-- The rows and tables of internal/store/migrate.go, and the SQL statements that the package runs on
-- them. A table is a list of rows in no particular order; a statement either leaves the database
-- alone and reports what it violated, or yields the number of rows that it touched (for an insert of
-- an operator, its new id) with the new database. What SQLite chooses by itself is the parameter
-- `Engine`.
mod Rows
mod Statements
unfoldable pub use Rows.*
unfoldable pub use Statements.*
