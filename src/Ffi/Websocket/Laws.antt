-- ===== src/Ffi/Websocket/Laws.antt =====
-- lib/endb_lib/src/lib.rs, `endb_start_server`: what a session calls and sends.
use endb.Prelude.{
  ℕ, ◌+◌, String, true, false, List, [], ◌∷◌, ◌++◌, ◌≡◌, refl, ap, sym, ◌∙◌, arith, inl, inr,
  length, length-append, append_assoc, append-nil,
}
use endb.Server.Websocket.{
  Incoming, data_message, control_message, broken, WsCall, on_ws_init, on_ws_message,
  serve_messages, serve_websocket,
}
use endb.Ffi.Query.{has_no_nul}
use endb.Ffi.Conversation.{Fed, blocked}
use endb.Ffi.Conversation.Laws.{Fed-cases}
use endb.Ffi.Websocket.{
  Replying, finished, send, WsEngine, Session, new_session, tell, Replied, replied, hung, WsEnd,
  ended, hangs, replies, or_hangs, session_messages, session,
}

-- each message that the engine sent was taken, or made an `on_abort`
pub record Counted (x : Session) : Type 0 where
  pub counted : x.sends ≡ length x.frames + x.aborts

taken-Counted :
    (m : List ℕ) (x : Session)
    → Counted x
    → Counted (record x { frames = x.frames ++ (m ∷ []); sends = x.sends + 1 })
taken-Counted m x c = record { counted = omega (arith, c.counted, length-append x.frames (m ∷ [])) }

refused-Counted :
    (x : Session) → Counted x → Counted (record x { sends = x.sends + 1; aborts = x.aborts + 1 })
refused-Counted x c = record { counted = omega (arith, c.counted) }

-- what the replies to a message leave of the calls before it
data Left {ℓ} {S : Type ℓ} (wire : ℕ → Fed) (calls : List WsCall) : Replied S → Type ℓ where
  left : (s : S) (x : Session) → x.calls ≡ calls → Counted x → Left {S = S} wire calls (replied s x)
  waits :
      (x : Session)
      → x.calls ≡ calls
      → Counted x
      → wire x.sends ≡ blocked
      → Left {S = S} wire calls (hung x)

-- How a session ends, `script` being all the calls it could make.
pub data Scripted {ℓ} {S : Type ℓ} (wire : ℕ → Fed) (script : List WsCall) : WsEnd S → Type ℓ where
  played :
      (s : S) (x : Session)
      → x.calls ≡ script
      → Counted x
      → Scripted {S = S} wire script (ended s x)
  held_up :
      (x : Session) (rest : List WsCall)
      → x.calls ++ rest ≡ script
      → Counted x
      → wire x.sends ≡ blocked
      → Scripted {S = S} wire script (hangs x)

module _ {ℓ} {S : Type ℓ} (wire : ℕ → Fed) where
  replies-Left : (r : Replying S) (x : Session) → Counted x → Left wire x.calls (replies wire r x)
  unfolding replies
  replies-Left (finished s) x c = left s x refl c
  replies-Left (send m k) x c = elim (Fed-cases (wire x.sends)) [
    | inl e ↦ let next = replies-Left (k false) _ (taken-Counted m x c) in rw e next
    | inr (inl e) ↦ let next = replies-Left (k true) _ (refused-Counted x c) in rw e next
    | inr (inr e) ↦ rw e (waits x refl c e)
  ]

  after_replies :
      {calls script : List WsCall} (rest : List WsCall) {r : Replied S} (k : S → Session → WsEnd S)
      → Left wire calls r
      → calls ++ rest ≡ script
      → ((s : S) (x : Session)
          → Counted x
          → x.calls ++ rest ≡ script
          → Scripted wire script (k s x))
      → Scripted wire script (or_hangs r k)
  after_replies rest k (left s x e c) same go = go s x c (ap (λ l. l ++ rest) e ∙ same)
  after_replies rest k (waits x e c b) same go = held_up x rest (ap (λ l. l ++ rest) e ∙ same) c b

  session_messages-Scripted :
      (engine : WsEngine S) (addr : String) (script : List WsCall) (ms : List Incoming) (s : S)
      (x : Session)
      → Counted x
      → x.calls ++ serve_messages addr ms ≡ script
      → Scripted wire script (session_messages wire engine addr ms s x)
  unfolding session_messages serve_messages
  session_messages-Scripted engine addr script [] s x c e =
      played _ _ e (record { counted = c.counted })
  session_messages-Scripted engine addr script (data_message m ∷ ms) s x c e =
      after_replies (serve_messages addr ms) _
        (replies-Left (engine.message addr m s) (tell (on_ws_message addr m) x)
          (record { counted = c.counted }))
        (append_assoc x.calls (on_ws_message addr m ∷ []) (serve_messages addr ms) ∙ e)
        (session_messages-Scripted engine addr script ms)
  session_messages-Scripted engine addr script (control_message ∷ ms) s x c e =
      session_messages-Scripted engine addr script ms s x c e
  session_messages-Scripted engine addr script (broken ∷ ms) s x c e =
      played s x (sym (append-nil _) ∙ e) c

  -- With an address without a NUL, the calls to the engine are the ones of `serve_websocket` for
  -- what the stream yields, in their order, however the engine replies: all of them, or those up to
  -- a message of the engine's that is never taken. Each message that it sent was taken or made one
  -- `on_abort`.
  pub session-Scripted :
      (engine : WsEngine S) (addr : String) (ms : List Incoming) (s : S)
      → has_no_nul addr ≡ true
      → Scripted wire (serve_websocket addr ms) (session wire engine addr ms s)
  unfolding session serve_websocket
  session-Scripted engine addr ms s e =
      let new = tell (on_ws_init addr) new_session in
      let opened_counted : Counted new = record { counted = refl } in
      rw e
        (session_messages-Scripted engine addr _ ms (engine.opened addr s) new opened_counted refl)
