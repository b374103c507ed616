-- ===== src/Sql.antt =====
-- lib/endb_cst/src/sql.rs: the grammar of the SQL dialect, and its parser `sql_stmt_list`.
pub mod Literals
pub mod Expressions
pub mod Operators
pub mod Tables
pub mod Select
pub mod Modify
pub mod Schema
pub mod Statements
pub mod Grammar
pub mod Ranks
pub mod Parse
pub mod Sexp
pub mod Meaning
pub mod Whole
