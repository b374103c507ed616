-- ===== src/Ffi/Query/Laws.antt =====
-- lib/endb_lib/src/lib.rs, `endb_start_server`: what the client gets.
use text.Mathlib.Text.{◌==◌ as str_eq}
use endb.Prelude.{
  ℕ, String, Bool, true, false, Option, none, some, ◌≡◌, inl, inr, refl, ap, ◌∙◌, Bool-cases,
  Option-cases,
}
use endb.Server.Http.{Request, Libraries}
use endb.Server.Params.{lookup, insert, query_params}
use endb.Server.Params.Laws.{lookup-insert}
use endb.Server.Auth.{unauthorized}
use endb.Server.Response.{
  Response, Query, Answer, respond, on_query, serve_websocket, failed, on_response_init, set_status,
  set_content_type,
}
use endb.Server.Service.{call, route, media_type, accept}
use endb.Server.Service.Form.{is_same}
use endb.Server.Response.Laws.{sql_response-answer_to, answer_to}
use endb.Server.Service.Laws.{Admitted, lost, queried, connected, Refusal, call-Admitted}
use endb.Ffi.Query.{
  Engine, has_no_nul, c_strings, on_query_closure, Served, sent, switched, connection_error,
  waiting, await, finish, serve,
}

set_status_lem :
    (lib : Libraries) (r : Response) {code status : ℕ}
    → lib.status_from_u16 code ≡ some status
    → set_status lib code r ≡ record r { status = status }
unfolding set_status
set_status_lem lib r s = rw (set_status, s) refl

set_content_type_lem :
    (lib : Libraries) (r : Response) {content_type value : String}
    → str_eq content_type "" ≡ false
    → lib.header_value content_type ≡ some value
    → set_content_type lib content_type r
      ≡ record r { headers = insert "content-type" value r.headers }
unfolding set_content_type
set_content_type_lem lib r e h = simp (e, h) refl

both_set :
    (lib : Libraries) (r : Response) {code status : ℕ} {content_type value : String}
    → lib.status_from_u16 code ≡ some status
    → str_eq content_type "" ≡ false
    → lib.header_value content_type ≡ some value
    → on_response_init lib r code content_type
      ≡ record r { status = status; headers = insert "content-type" value r.headers }
unfolding on_response_init
both_set lib r s e h =
    ap (set_content_type lib _) (set_status_lem lib r s) ∙ set_content_type_lem lib _ e h

-- A valid status code of the engine is the status of the response, and a content type that is a
-- header value is its content type; the body is the stream that it was.
on_response_init_lem :
    (lib : Libraries) (r : Response) (code status : ℕ) (content_type value : String)
    → lib.status_from_u16 code ≡ some status
    → str_eq content_type "" ≡ false
    → lib.header_value content_type ≡ some value
    → ((on_response_init lib r code content_type).status ≡ status)
      × (lookup "content-type" (on_response_init lib r code content_type).headers ≡ some value)
      × ((on_response_init lib r code content_type).streams ≡ r.streams)
on_response_init_lem lib r code status content_type value s e h =
    rw (both_set lib r {content_type = content_type} s e h)
      (refl, lookup-insert "content-type" "content-type" value r.headers, refl)

-- What the client of a request can see, by what the service makes of it and what the engine says to
-- the query that it makes.
pub data Seen (lib : Libraries) (engine : Engine) (auth : Option String) (req : Request)
    (upgrades : Bool) : Served → Type 0 where
  refused :
      (r : Response)
      → call lib auth req upgrades ≡ respond r
      → r.streams ≡ false
      → Refusal lib auth req r.status
      → Seen lib engine auth req upgrades (sent r)
  answered :
      (r : Response) (query : Query) {status : ℕ} {content_type : String}
      → call lib auth req upgrades ≡ on_query r query
      → Admitted lib auth req (on_query r query)
      → c_strings query ≡ true
      → engine query ≡ some (status, content_type)
      → Seen lib engine auth req upgrades (sent (on_response_init lib r status content_type))
  unanswered :
      (r : Response) (query : Query)
      → call lib auth req upgrades ≡ on_query r query
      → Admitted lib auth req (on_query r query)
      → c_strings query ≡ true
      → engine query ≡ none
      → Seen lib engine auth req upgrades waiting
  nul_in_query :
      (r : Response) (query : Query)
      → call lib auth req upgrades ≡ on_query r query
      → Admitted lib auth req (on_query r query)
      → c_strings query ≡ false
      → Seen lib engine auth req upgrades connection_error
  websocket :
      call lib auth req upgrades ≡ serve_websocket
      → Admitted lib auth req serve_websocket
      → Seen lib engine auth req upgrades switched
  broken :
      call lib auth req upgrades ≡ failed
      → Admitted lib auth req failed
      → Seen lib engine auth req upgrades connection_error

module _ (lib : Libraries) (engine : Engine) (auth : Option String) (req : Request)
    (upgrades : Bool) where
  query-Seen :
      (r : Response) (query : Query)
      → call lib auth req upgrades ≡ on_query r query
      → Admitted lib auth req (on_query r query)
      → Seen lib engine auth req upgrades (await (on_query_closure lib engine r query))
  unfolding on_query_closure
  query-Seen r query e u = elim (Bool-cases (c_strings query)) [
    | inr c ↦ simp c (nul_in_query r query e u c)
    | inl c ↦ elim (Option-cases (engine query)) [
      | inl n ↦ simp (c, n) (unanswered r query e u c n)
      | inr ((status, content_type), n) ↦ simp (c, n) (answered r query e u c n)
    ]
  ]

  finish-Seen :
      (a : Answer)
      → call lib auth req upgrades ≡ a
      → Admitted lib auth req a
      → Seen lib engine auth req upgrades (finish lib engine a)
  unfolding finish
  finish-Seen _ e (Admitted.turned_away r s why) = refused r e s why
  finish-Seen _ e (lost u why) = broken e (lost u why)
  finish-Seen _ e (queried r query base u n p m m' t) =
      query-Seen r query e (queried r query base u n p m m' t)
  finish-Seen _ e (connected u n p) = websocket e (connected u n p)

  -- With an engine that answers a query at most once, the client sees a refusal of the service with
  -- its reason, or, for a request that is let in, the engine's answer to the query that the service
  -- makes of that request, on a response that begins as 500 and streams; or a websocket; or an error of
  -- the connection, because a body was cut off, an upgrade failed or a text of the query holds a NUL;
  -- or it waits for ever, which happens only if the engine never answers that query.
  pub serve-Seen : Seen lib engine auth req upgrades (serve lib engine auth req upgrades)
  unfolding serve
  serve-Seen = finish-Seen _ refl (call-Admitted lib auth req upgrades)

module _ (lib : Libraries) (engine : Engine) (auth : Option String) (req : Request) where
  -- the query that a GET is made
  get-on_query :
      (upgrades : Bool) (media q : String)
      → unauthorized lib auth req ≡ false
      → req.is_upgrade ≡ false
      → req.path ≡ "/sql"
      → req.method ≡ "GET"
      → media_type (accept lib req) ≡ some media
      → lookup "q" (query_params lib req.query) ≡ some q
      → call lib auth req upgrades
        ≡ answer_to "GET" media
            (some q)
            (lookup "p" (query_params lib req.query))
            (lookup "m" (query_params lib req.query))
  unfolding call route
  get-on_query upgrades media q u up path method m asked =
      simp (u, up, is_same path, is_same method, m)
        (rw (sql_response-answer_to req.method media (query_params lib req.query), method, asked)
          refl)

  -- A NUL byte in the query text of a GET of /sql that is let in makes the callback panic, and the
  -- client gets an error of the connection, whatever the engine does.
  pub serve-nul :
      (upgrades : Bool) (media q : String)
      → unauthorized lib auth req ≡ false
      → req.is_upgrade ≡ false
      → req.path ≡ "/sql"
      → req.method ≡ "GET"
      → media_type (accept lib req) ≡ some media
      → lookup "q" (query_params lib req.query) ≡ some q
      → has_no_nul q ≡ false
      → serve lib engine auth req upgrades ≡ connection_error
  unfolding serve finish on_query_closure
  serve-nul upgrades media q u up path method m asked nul =
      rw (get-on_query upgrades media q u up path method m asked)
        (elim (Bool-cases (has_no_nul media)) [
          | inl b ↦ simp (nul, b) refl
          | inr b ↦ simp (nul, b) refl
        ])
