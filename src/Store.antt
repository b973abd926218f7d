-- ===== src/Store.antt =====
-- The database as the backend uses it: the tables of packages/backend/migrations, the values that
-- its queries and updates are made of, and calls that return a result or an error.
-- A table is the function from a primary key to the row that has it. An error is its text.
pub mod Reads
pub mod Sorting
pub mod Gorm
pub mod Rules
pub mod Rows
pub mod Memory
pub use Defs.*
mod Defs
