-- ===== src/Cst.antt =====
-- lib/endb_cst: the events of a parse and what is computed from them.
pub mod Event
pub mod Forest
pub mod Errors
pub mod Sexp
pub mod Report
