-- ===== src/Server.antt =====
-- lib/endb_server/src/lib.rs: the HTTP server.
pub mod Http
pub mod Params
pub mod Auth
pub mod Response
pub mod Service
pub mod Websocket
pub mod Start
