-- ===== src/Ffi/Query.antt =====
-- lib/endb_lib/src/lib.rs, `endb_start_server`: how a query of the server reaches the engine, and
-- how the engine's answer reaches the client. The engine is here one that answers a query at most
-- once, and a client is there for the answer; the exchange with an engine that calls back as it likes,
-- the second answer that frees the response again and the chunks of the body are in Ffi/Conversation.
pub mod Laws
use Prim.Native.Char.{code}
use endb.Prelude.{ℕ, String, Bool, true, false, not, ◌&&◌, Option, none, some, if◌then◌else◌, ◌==◌}
use endb.Server.Http.{Request, Libraries}
use endb.Server.Response.{
  Response, Query, Answer, respond, on_query, serve_websocket, failed, on_response_init,
}
use endb.Server.Service.{call}

-- a text that `CString::new` takes
unfoldable pub has_no_nul : String → Bool
has_no_nul String.[] = true
has_no_nul (String.◌∷◌ c s) = not (code c == 0) && has_no_nul s

-- The engine is the other side of the callback: for the five texts the status code and the content
-- type that it calls `on_response_init` with, `none` if it never does.
abbrev pub Engine : Type 0
Engine = Query → Option (ℕ × String)

-- what comes out of the one-shot channel: a response, its end without one, or nothing ever
pub data Delivery : Type 0 where
  delivered : Response → Delivery
  cancelled : Delivery
  pending : Delivery

-- `CString::new(..).unwrap()` of each text
abbrev pub c_strings : Query → Bool
c_strings query =
    has_no_nul query.method
    && (has_no_nul query.media_type
        && (has_no_nul query.q && (has_no_nul query.p && has_no_nul query.m)))

abbrev pub on_response_init_callback : Libraries → Response → Option (ℕ × String) → Delivery
on_response_init_callback lib response none = pending
on_response_init_callback lib response (some (status, content_type)) =
    delivered (on_response_init lib response status content_type)

-- the closure; if it panics, `tx` is dropped, and if the engine does not answer `tx` is leaked
unfoldable pub on_query_closure : Libraries → Engine → Response → Query → Delivery
unfolding has_no_nul on_response_init
on_query_closure lib engine response query =
    if c_strings query then on_response_init_callback lib response (engine query) else cancelled

-- what the client sees
pub data Served : Type 0 where
  sent : Response → Served
  switched : Served
  connection_error : Served
  waiting : Served

-- `Ok(rx.await?)`
abbrev pub await : Delivery → Served
await (delivered r) = sent r
await cancelled = connection_error
await pending = waiting

unfoldable pub finish : Libraries → Engine → Answer → Served
unfolding on_query_closure
finish lib engine (respond r) = sent r
finish lib engine (on_query r query) = await (on_query_closure lib engine r query)
finish lib engine serve_websocket = switched
finish lib engine failed = connection_error

unfoldable pub serve : Libraries → Engine → Option String → Request → Bool → Served
unfolding call finish
serve lib engine basic_auth req upgrades = finish lib engine (call lib basic_auth req upgrades)
