-- ===== src/Ffi/Conversation/Serve.antt =====
-- lib/endb_server/src/lib.rs, `EndbService::call`, with the callbacks of lib/endb_lib/src/lib.rs: the
-- service over an engine that is known by its calls.
use endb.Prelude.{String, Bool, true, false, Option, none, some, ◌≡◌, refl, ap}
use endb.Server.Http.{Request, Libraries}
use endb.Server.Response.{Query, Answer, respond, on_query, serve_websocket, failed}
use endb.Server.Service.{call}
use endb.Ffi.Query.{
  Engine, Served, sent, switched, connection_error, Delivery, await, finish, serve,
}
use endb.Ffi.Query.Laws.{Seen, serve-Seen}
use endb.Ffi.Conversation.{Engaged, Channels, on_query_exchange, left_in_channel}
use endb.Ffi.Conversation.Refines.{Once, first_answer, on_query_exchange-refines}

-- `none` after a double free
abbrev pub awaited : Option Delivery → Option Served
awaited none = none
awaited (some d) = some (await d)

unfoldable pub finish_exchange : Libraries → Channels → (Query → Engaged) → Answer → Option Served
unfolding on_query_exchange
finish_exchange lib ch engine (respond r) = some (sent r)
finish_exchange lib ch engine (on_query r query) =
    awaited (left_in_channel (on_query_exchange lib ch engine r query))
finish_exchange lib ch engine serve_websocket = some switched
finish_exchange lib ch engine failed = some connection_error

unfoldable pub serve_exchange :
    Libraries → Channels → (Query → Engaged) → Option String → Request → Bool → Option Served
unfolding call finish_exchange
serve_exchange lib ch engine basic_auth req upgrades =
    finish_exchange lib ch engine (call lib basic_auth req upgrades)

-- the engine as nothing but the first answer of each query, where its calls come to one
abbrev pub answers_of : Channels → (Query → Engaged) → Engine
answers_of ch engine query = first_answer ch 0 (engine query)

module _ (lib : Libraries) (ch : Channels) (listening : ch.listening ≡ true)
    (engine : Query → Engaged) (once : (q : Query) → Once false (engine q)) where
  finish_exchange-refines :
      (a : Answer) → finish_exchange lib ch engine a ≡ some (finish lib (answers_of ch engine) a)
  unfolding finish_exchange finish
  finish_exchange-refines (respond r) = refl
  finish_exchange-refines (on_query r query) =
      ap awaited (on_query_exchange-refines lib ch r query engine listening (once query))
  finish_exchange-refines serve_websocket = refl
  finish_exchange-refines failed = refl

  -- While the client listens, and with an engine that calls `on_response_init` at most once for a
  -- query, no response is freed twice, and what the client sees of a request is what the service
  -- shows with an engine that is nothing but the first answer to each query: a refusal with its
  -- reason, that answer to a query of a request that was let in, a websocket or an error of the
  -- connection; it waits for ever only if the engine comes to no answer.
  pub serve_exchange-Seen :
      (auth : Option String) (req : Request) (upgrades : Bool)
      → (served : Served) × (serve_exchange lib ch engine auth req upgrades ≡ some served)
        × (served ≡ serve lib (answers_of ch engine) auth req upgrades)
        × Seen lib (answers_of ch engine) auth req upgrades served
  unfolding serve_exchange serve
  serve_exchange-Seen auth req upgrades = (
    _,
    finish_exchange-refines (call lib auth req upgrades),
    refl,
    serve-Seen lib (answers_of ch engine) auth req upgrades,
  )
