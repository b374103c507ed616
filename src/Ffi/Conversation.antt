-- ===== src/Ffi/Conversation.antt =====
-- lib/endb_lib/src/lib.rs, `endb_start_server`: what the engine does with the callbacks of one query.
pub mod Laws
pub mod Refines
pub mod Serve
use endb.Prelude.{
  ℕ, ◌+◌, String, Bool, true, false, Option, none, some, List, [], ◌∷◌, ◌++◌, if◌then◌else◌,
}
use endb.Server.Http.{Libraries, Bytes}
use endb.Server.Response.{Response, Query, on_response_init}
use endb.Ffi.Query.{c_strings, Delivery, delivered, cancelled, pending}

-- The engine, from some point of its work on a query: it is done, or it calls one of the two
-- callbacks and goes on by whether that call made an `on_abort`.
pub data Engaged : Type 0 where
  done : Engaged
  init : ℕ → String → (Bool → Engaged) → Engaged
  send : Bytes → (Bool → Engaged) → Engaged

-- `block_on(sender.feed(..))`: the chunk is taken, the body has no receiver, or neither ever happens
pub data Fed : Type 0 where
  taken refused blocked : Fed

-- The channels of the client: whether the one-shot receiver is there, and what comes of the n-th
-- chunk.
pub record Channels : Type 0 where
  pub listening : Bool
  pub feed : ℕ → Fed

-- `boxed` is the response that the engine has a raw pointer to, until it is freed; `delivered` is
-- what went through the one-shot channel; `fed` counts the calls of `feed`.
pub record Exchange : Type 0 where
  pub boxed : Option Response
  pub delivered : Option Response
  pub chunks : List Bytes
  pub fed : ℕ
  pub aborts : ℕ

abbrev pub start : Response → Exchange
start response = record {
  boxed = some response;
  delivered = none;
  chunks = [];
  fed = 0;
  aborts = 0;
}

-- `stuck` in a call of `feed`; `double_free` where `Box::from_raw` takes a freed pointer
pub data Ended : Type 0 where
  returned : Exchange → Ended
  stuck : Exchange → Ended
  double_free : Ended

-- `tx.send(response)` at the end of `on_response_init`, and `on_abort` where it fails
abbrev pub deliver : Bool → Response → Exchange → Exchange
deliver true response x = record x { boxed = none; delivered = some response }
deliver false response x = record x { boxed = none; aborts = x.aborts + 1 }

-- whether the chunk went out; `none` if the call does not return
abbrev pub on_response_send : Fed → Bytes → Exchange → Option (Bool × Exchange)
on_response_send taken chunk x =
    some (true, record x { chunks = x.chunks ++ (chunk ∷ []); fed = x.fed + 1 })
on_response_send refused chunk x = some (false, record x { fed = x.fed + 1 })
on_response_send blocked chunk x = none

-- `if .. .is_err() { on_abort(); }`
abbrev pub abort_on_err : Option (Bool × Exchange) → Option Exchange
abort_on_err none = none
abort_on_err (some (true, x)) = some x
abort_on_err (some (false, x)) = some (record x { aborts = x.aborts + 1 })

abbrev pub on_response_send_callback : Fed → Bytes → Exchange → Option Exchange
on_response_send_callback f body x = abort_on_err (on_response_send f body x)

abbrev pub aborted : Fed → Bool
aborted taken = false
aborted refused = true
aborted blocked = false

abbrev pub not_listening : Bool → Bool
not_listening true = false
not_listening false = true

-- `Box::from_raw(response)`
abbrev pub take_box : Option Response → (Response → Ended) → Ended
take_box none k = double_free
take_box (some response) k = k response

abbrev pub or_stuck : Exchange → Option Exchange → (Exchange → Ended) → Ended
or_stuck x none k = stuck x
or_stuck x (some x') k = k x'

unfoldable pub converse : Libraries → Channels → Engaged → Exchange → Ended
unfolding on_response_init
converse lib ch done x = returned x
converse lib ch (init status content_type k) x = take_box x.boxed λ response.
    converse lib ch (k (not_listening ch.listening))
      (deliver ch.listening (on_response_init lib response status content_type) x)
converse lib ch (send body k) x =
    or_stuck x (on_response_send_callback (ch.feed x.fed) body x)
      λ x'. converse lib ch (k (aborted (ch.feed x.fed))) x'

-- the closure for `on_query`; `none` if it panics before it calls the engine
unfoldable pub on_query_exchange :
    Libraries → Channels → (Query → Engaged) → Response → Query → Option Ended
unfolding converse
on_query_exchange lib ch engine response query =
    if c_strings query then some (converse lib ch (engine query) (start response)) else none

abbrev pub or_pending : Option Response → Delivery
or_pending none = pending
or_pending (some response) = delivered response

-- what the exchange leaves in the one-shot channel; `none` after a double free
abbrev pub left_in_channel : Option Ended → Option Delivery
left_in_channel none = some cancelled
left_in_channel (some (returned x)) = some (or_pending x.delivered)
left_in_channel (some (stuck x)) = some (or_pending x.delivered)
left_in_channel (some double_free) = none
