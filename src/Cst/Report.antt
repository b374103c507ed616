-- ===== src/Cst/Report.antt =====
-- lib/endb_cst/src/lib.rs: `parse_errors_to_string`, up to the report that it draws.
pub mod Types
pub mod Sorting
pub mod Found
pub mod Groups
pub mod Labels
pub mod Build
pub mod Draw
