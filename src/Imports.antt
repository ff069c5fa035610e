-- ===== src/Imports.antt =====
-- Statement files (backend/app/imports): their rows, which of them an account has already, and
-- importing them.
pub mod Rows
pub mod Matching
pub mod Filing
pub mod Preview
mod Examples
