-- ===== src/Ffi/Websocket.antt =====
-- lib/endb_lib/src/lib.rs, `endb_start_server`: the closures for a websocket, called in the loop of
-- lib/endb_server/src/lib.rs, `serve_websocket`.
pub mod Laws
use endb.Prelude.{
  ℕ, Option, none, some, ◌+◌, String, Bool, true, false, List, [], ◌∷◌, ◌++◌, if◌then◌else◌,
}
use endb.Server.Http.{Bytes}
use endb.Server.Websocket.{
  Incoming, data_message, control_message, broken, WsCall, on_ws_init, on_ws_close, on_ws_message,
}
use endb.Ffi.Query.{has_no_nul}
use endb.Ffi.Conversation.{Fed, taken, refused, blocked}

-- The engine while it works on a message: it is done, or it sends a message and goes on by whether
-- `on_abort` was called.
pub data Replying {ℓ} (S : Type ℓ) : Type ℓ where
  finished : S → Replying S
  send : Bytes → (Bool → Replying S) → Replying S

-- the callbacks of the engine, over what it remembers
pub record WsEngine {ℓ} (S : Type ℓ) : Type ℓ where
  pub opened : String → S → S
  pub closed : String → S → S
  pub message : String → Bytes → S → Replying S

-- the calls of the engine, and what became of the messages that it sent
pub record Session : Type 0 where
  pub calls : List WsCall
  pub frames : List Bytes
  pub sends : ℕ
  pub aborts : ℕ

abbrev pub new_session : Session
new_session = record { calls = []; frames = []; sends = 0; aborts = 0 }

abbrev pub tell : WsCall → Session → Session
tell c x = record x { calls = x.calls ++ (c ∷ []) }

pub data Replied {ℓ} (S : Type ℓ) : Type ℓ where
  replied : S → Session → Replied S
  hung : Session → Replied S

-- how a session ends: the task returns, waits for ever in `send`, or panics in `CString::new`
pub data WsEnd {ℓ} (S : Type ℓ) : Type ℓ where
  ended : S → Session → WsEnd S
  hangs : Session → WsEnd S
  panicked : WsEnd S

-- whether the message went out; `none` if the call does not return
abbrev pub on_websocket_send : Fed → Bytes → Session → Option (Bool × Session)
on_websocket_send taken m x =
    some (true, record x { frames = x.frames ++ (m ∷ []); sends = x.sends + 1 })
on_websocket_send refused m x = some (false, record x { sends = x.sends + 1 })
on_websocket_send blocked m x = none

-- The callback, `k` being what the engine does after it, by whether there was an `on_abort`.
abbrev pub on_websocket_send_callback {ℓ} :
    {S : Type ℓ} → Option (Bool × Session) → Session → (Bool → Session → Replied S) → Replied S
on_websocket_send_callback none x k = hung x
on_websocket_send_callback (some (true, x')) x k = k false x'
on_websocket_send_callback (some (false, x')) x k = k true (record x' { aborts = x'.aborts + 1 })

-- the closure for a message, `wire` being what comes of the n-th message that is sent
unfoldable pub replies {ℓ} : {S : Type ℓ} → (ℕ → Fed) → Replying S → Session → Replied S
replies wire (finished s) x = replied s x
replies wire (send m k) x =
    on_websocket_send_callback (on_websocket_send (wire x.sends) m x) x
      λ aborted x'. replies wire (k aborted) x'

abbrev pub or_hangs {ℓ} : {S : Type ℓ} → Replied S → (S → Session → WsEnd S) → WsEnd S
or_hangs (replied s x) k = k s x
or_hangs (hung x) k = hangs x

unfoldable pub session_messages {ℓ} :
    {S : Type ℓ} → (ℕ → Fed) → WsEngine S → String → List Incoming → S → Session → WsEnd S
unfolding replies
session_messages wire engine addr [] s x = ended (engine.closed addr s) (tell (on_ws_close addr) x)
session_messages wire engine addr (data_message m ∷ ms) s x =
    or_hangs (replies wire (engine.message addr m s) (tell (on_ws_message addr m) x))
      λ s' x'. session_messages wire engine addr ms s' x'
session_messages wire engine addr (control_message ∷ ms) s x =
    session_messages wire engine addr ms s x
session_messages wire engine addr (broken ∷ ms) s x = ended s x

-- every closure makes a C string of the same address
unfoldable pub session {ℓ} :
    {S : Type ℓ} → (ℕ → Fed) → WsEngine S → String → List Incoming → S → WsEnd S
unfolding has_no_nul session_messages
session wire engine addr ms s =
    if has_no_nul addr
    then session_messages wire engine addr ms (engine.opened addr s)
        (tell (on_ws_init addr) new_session)
    else panicked
