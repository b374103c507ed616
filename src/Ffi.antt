-- ===== src/Ffi.antt =====
-- lib/endb_lib/src/lib.rs.
pub mod Callback
pub mod Start
pub mod Arrow
pub mod ParseSql
pub mod Query
pub mod Conversation
pub mod Websocket
