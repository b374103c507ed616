-- ===== src/Ffi/Conversation/Refines.antt =====
-- lib/endb_lib/src/lib.rs, `endb_start_server`: the exchange and its summary in Ffi/Query.
use endb.Ffi.Conversation.Laws.{Fed-cases}
use endb.Prelude.{
  ℕ, ◌+◌, String, Bool, true, false, Option, none, some, ◌≡◌, refl, inl, inr, Bool-cases,
}
use endb.Server.Http.{Libraries, Bytes}
use endb.Server.Response.{Response, Query}
use endb.Ffi.Query.{c_strings, on_response_init_callback, on_query_closure}
use endb.Ffi.Conversation.{
  Engaged, done, init, send, taken, refused, blocked, Exchange, Channels, start, converse,
  or_pending, left_in_channel, on_query_exchange,
}

-- an engine that calls `on_response_init` at most once, or no more if it has done so
pub data Once : Bool → Engaged → Type 0 where
  done_once : {used : Bool} → Once used done
  init_once :
      {status : ℕ} {content_type : String} {k : Bool → Engaged}
      → ((b : Bool) → Once true (k b))
      → Once false (init status content_type k)
  send_once :
      {used : Bool} {body : Bytes} {k : Bool → Engaged}
      → ((b : Bool) → Once used (k b))
      → Once used (send body k)

-- the first `on_response_init` of an engine, if it comes to one; `n` chunks were fed before
unfoldable pub first_answer : Channels → ℕ → Engaged → Option (ℕ × String)
first_answer ch n done = none
first_answer ch n (init status content_type k) = some (status, content_type)
first_answer ch n (send body k) =
    let after_taken = first_answer ch (n + 1) (k false) in
    let after_refused = first_answer ch (n + 1) (k true) in
    elim (ch.feed n) [ taken ↦ after_taken | refused ↦ after_refused | blocked ↦ none ]

init-Once :
    {used : Bool} {status : ℕ} {content_type : String} {k : Bool → Engaged}
    → Once used (init status content_type k)
    → (used ≡ false) × ((b : Bool) → Once true (k b))
init-Once (init_once next) = (refl, next)

send-Once :
    {used : Bool} {body : Bytes} {k : Bool → Engaged} (b : Bool)
    → Once used (send body k)
    → Once used (k b)
send-Once b (send_once next) = next b

true≢false : true ≡ false → ⊥
true≢false e = cc

module _ (lib : Libraries) (ch : Channels) where
  -- nothing more goes through the one-shot channel
  left_unchanged :
      (engine : Engaged) (x : Exchange)
      → Once true engine
      → left_in_channel (some (converse lib ch engine x)) ≡ some (or_pending x.delivered)
  unfolding converse
  left_unchanged done x once = refl
  left_unchanged (init status content_type k) x once = absurd (true≢false (init-Once once).0)
  left_unchanged (send body k) x once = elim (Fed-cases (ch.feed x.fed)) [
    | inl e ↦ let next = left_unchanged (k false) _ (send-Once false once) in rw e next
    | inr (inl e) ↦ let next = left_unchanged (k true) _ (send-Once true once) in rw e next
    | inr (inr e) ↦ rw e refl
  ]

  left-first_answer :
      (response : Response) (engine : Engaged) (x : Exchange)
      → ch.listening ≡ true
      → x.boxed ≡ some response
      → x.delivered ≡ none
      → Once false engine
      → left_in_channel (some (converse lib ch engine x))
        ≡ some (on_response_init_callback lib response (first_answer ch x.fed engine))
  unfolding converse first_answer
  left-first_answer response done x listening boxed undelivered once = rw undelivered refl
  left-first_answer response (init status content_type k) x listening boxed undelivered once =
      rw (boxed, listening) (left_unchanged (k false) _ ((init-Once once).1 false))
  left-first_answer response (send body k) x listening boxed undelivered once =
      elim (Fed-cases (ch.feed x.fed)) [
        | inl e ↦
            let next =
              left-first_answer response (k false) _ listening boxed undelivered
                (send-Once false once) in
            rw (e, first_answer) next
        | inr (inl e) ↦
            let next =
              left-first_answer response (k true) _ listening boxed undelivered
                (send-Once true once) in
            rw (e, first_answer) next
        | inr (inr e) ↦ rw (e, first_answer, undelivered) refl
      ]

  -- what a query comes to, by the first answer of the engine
  pub on_query_exchange-refines :
      (response : Response) (query : Query) (engine : Query → Engaged)
      → ch.listening ≡ true
      → Once false (engine query)
      → left_in_channel (on_query_exchange lib ch engine response query)
        ≡ some (on_query_closure lib (λ q. first_answer ch 0 (engine q)) response query)
  unfolding on_query_exchange on_query_closure
  on_query_exchange-refines response query engine listening once =
      let answered =
        left-first_answer response (engine query) (start response) listening refl refl once in
      elim (Bool-cases (c_strings query)) [ inl c ↦ simp c answered | inr c ↦ simp c refl ]
