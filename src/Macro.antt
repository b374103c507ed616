-- ===== src/Macro.antt =====
-- lib/endb_proc_macro/src/lib.rs: how `peg!` reads a grammar from tokens.
pub mod Tokens
pub mod Result
pub mod Parse
pub mod Print
