-- ===== src/Server/Websocket.antt =====
-- lib/endb_server/src/lib.rs, `serve_websocket`.
pub mod Laws
use endb.Prelude.{String, List, [], ◌∷◌}
use endb.Server.Http.{Bytes}

-- what the stream yields: a text or binary message, another message, or an error
pub data Incoming : Type 0 where
  data_message : Bytes → Incoming
  control_message : Incoming
  broken : Incoming

-- the calls to the engine
pub data WsCall : Type 0 where
  on_ws_init : String → WsCall
  on_ws_close : String → WsCall
  on_ws_message : String → Bytes → WsCall

-- the `while let`, and what follows it
unfoldable pub serve_messages : String → List Incoming → List WsCall
serve_messages addr [] = on_ws_close addr ∷ []
serve_messages addr (data_message m ∷ ms) = on_ws_message addr m ∷ serve_messages addr ms
serve_messages addr (control_message ∷ ms) = serve_messages addr ms
serve_messages addr (broken ∷ ms) = []

-- once the handshake is done
unfoldable pub serve_websocket : String → List Incoming → List WsCall
unfolding serve_messages
serve_websocket addr ms = on_ws_init addr ∷ serve_messages addr ms
