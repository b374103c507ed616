-- ===== src/Server/Websocket/Laws.antt =====
-- lib/endb_server/src/lib.rs, `serve_websocket`: the calls to the engine by what the stream yields.
use endb.Prelude.{String, Bool, true, false, List, [], ◌∷◌, ◌++◌, map, ◌≡◌, refl, ap, if◌then◌else◌}
use endb.Server.Http.{Bytes}
use endb.Server.Websocket.{
  Incoming, data_message, control_message, broken, on_ws_init, on_ws_close, on_ws_message,
  serve_messages, serve_websocket,
}

-- what the stream yields before its first error, and whether it has one
abbrev pub received : List Incoming → List Bytes
received [] = []
received (data_message m ∷ ms) = m ∷ received ms
received (control_message ∷ ms) = received ms
received (broken ∷ ms) = []

abbrev pub breaks : List Incoming → Bool
breaks [] = false
breaks (broken ∷ ms) = true
breaks (_ ∷ ms) = breaks ms

serve_messages_lem :
    (addr : String) (ms : List Incoming)
    → serve_messages addr ms
      ≡ map (on_ws_message addr) (received ms) ++ (if breaks ms then [] else on_ws_close addr ∷ [])
unfolding serve_messages
serve_messages_lem addr [] = refl
serve_messages_lem addr (data_message m ∷ ms) =
    ap (λ l. on_ws_message addr m ∷ l) (serve_messages_lem addr ms)
serve_messages_lem addr (control_message ∷ ms) = serve_messages_lem addr ms
serve_messages_lem addr (broken ∷ ms) = refl

-- The engine is called once at the start, once for each data message before the first error of the
-- stream, in their order, and at the end exactly if the stream had no error: after an error it is
-- never told that the connection is closed.
pub serve_websocket_lem :
    (addr : String) (ms : List Incoming)
    → serve_websocket addr ms
      ≡ on_ws_init addr
        ∷ (map (on_ws_message addr) (received ms)
            ++ (if breaks ms then [] else on_ws_close addr ∷ []))
unfolding serve_websocket
serve_websocket_lem addr ms = ap (λ l. on_ws_init addr ∷ l) (serve_messages_lem addr ms)
