-- ===== src/Server/Service/Laws.antt =====
-- lib/endb_server/src/lib.rs, `EndbService::call`: what it answers, and why.
use text.Mathlib.Text.{◌==◌ as str_eq}
use endb.Prelude.{
  ℕ, String, Bool, true, false, Option, none, some, [], ◌≡◌, ◌⊎◌, inl, inr, refl, sym, ap, ◌∙◌,
  Bool-cases, Option-cases,
}
use endb.Server.Http.{Bytes, Request, Libraries, Mime}
use endb.Server.Params.{Params, lookup, insert, insert_all, json_pairs, field_pairs, query_params}
use endb.Server.Params.Laws.{str_eq→eq}
use endb.Server.Auth.{unauthorized}
use endb.Server.Response.{
  Response, Query, Answer, respond, on_query, serve_websocket, failed, empty_response, sql_response,
}
use endb.Server.Response.Laws.{sql_response-answer_to, answer_to}
use endb.Server.Service.{
  ContentKind, json, sql, form, multipart, unsupported, content_kind, accept, media_type,
  content_type, post_sql, route, call,
}

-- why a request to /sql that is let in is refused
pub data BadRequest : ℕ → Type 0 where
  no_boundary : BadRequest 400
  unsupported_type : BadRequest 415
  no_query : BadRequest 422

-- The answers of `sql_response` and of the arms that end in it, to a request with the given body.
pub data Queries (method media : String) (body : Option Bytes) : Answer → Type 0 where
  refused :
      {status : ℕ} → BadRequest status → Queries method media body (respond (empty_response status))
  cut_off : body ≡ none → Queries method media body failed
  asked :
      (r : Response) (query : Query)
      → r ≡ record { status = 500; headers = []; streams = true }
      → query.method ≡ method
      → query.media_type ≡ media
      → Queries method media body (on_query r query)

module _ {method media : String} {body : Option Bytes} where
  sql_response-Queries : (ps : Params) → Queries method media body (sql_response method media ps)
  sql_response-Queries ps = rw (sql_response-answer_to method media ps) (go (lookup "q" ps) _ _)
    where
      go : (q p m : Option String) → Queries method media body (answer_to method media q p m)
      go none p m = refused no_query
      go (some q) p m = asked _ _ refl refl refl

module _ (lib : Libraries) (req : Request) (media : String) (ps : Params) (mime : Mime) where
  post_sql-Queries :
      (kind : ContentKind) → Queries req.method media req.body (post_sql lib req media ps mime kind)
  unfolding post_sql
  post_sql-Queries unsupported = refused unsupported_type
  post_sql-Queries json = elim (Option-cases req.body) [
    | inl e ↦ simp e (cut_off refl)
    | inr (body, e) ↦ elim (Option-cases (lib.json_object body)) [
      | inl e' ↦ simp (e, e') (refused no_query)
      | inr (object, e') ↦ simp (e, e') (sql_response-Queries (insert_all (json_pairs object) ps))
    ]
  ]
  post_sql-Queries sql = elim (Option-cases req.body) [
    | inl e ↦ simp e (cut_off refl)
    | inr (body, e) ↦ elim (Option-cases (lib.from_utf8 body)) [
      | inl e' ↦ simp (e, e') (refused no_query)
      | inr (q, e') ↦ simp (e, e') (sql_response-Queries (insert "q" q ps))
    ]
  ]
  post_sql-Queries form = elim (Option-cases req.body) [
    | inl e ↦ simp e (cut_off refl)
    | inr (body, e) ↦ simp e (sql_response-Queries (insert_all (lib.parse_form body) ps))
  ]
  post_sql-Queries multipart = elim (Option-cases mime.boundary) [
    | inl e' ↦ simp e' (refused no_boundary)
    | inr (boundary, e') ↦ elim (Option-cases req.body) [
      | inl e ↦ simp (e, e') (cut_off refl)
      | inr (body, e) ↦
          simp (e, e')
            (sql_response-Queries
              (insert_all (field_pairs (lib.multipart_fields boundary body)) ps))
    ]
  ]

-- why a request is refused, by the status of the response
pub data Refusal (lib : Libraries) (auth : Option String) (req : Request) : ℕ → Type 0 where
  wrong_credentials : unauthorized lib auth req ≡ true → Refusal lib auth req 401
  wrong_path : str_eq req.path "/sql" ≡ false → Refusal lib auth req 404
  not_acceptable : media_type (accept lib req) ≡ none → Refusal lib auth req 406
  wrong_method :
      str_eq req.method "GET" ≡ false → str_eq req.method "POST" ≡ false → Refusal lib auth req 405
  no_content_type : req.method ≡ "POST" → content_type lib req ≡ none → Refusal lib auth req 415
  bad_request :
      {status : ℕ}
      → (req.method ≡ "GET") ⊎ (req.method ≡ "POST")
      → BadRequest status
      → Refusal lib auth req status

-- What a call answers: it refuses the request without the engine and for a reason, loses the
-- connection, asks the engine, or serves a websocket; the last two only where the request is let
-- in.
pub data Admitted (lib : Libraries) (auth : Option String) (req : Request) : Answer → Type 0 where
  turned_away :
      (r : Response)
      → r.streams ≡ false
      → Refusal lib auth req r.status
      → Admitted lib auth req (respond r)
  lost :
      unauthorized lib auth req ≡ false
      → (req.is_upgrade ≡ true) ⊎ (req.body ≡ none)
      → Admitted lib auth req failed
  queried :
      (r : Response) (query : Query)
      → r ≡ record { status = 500; headers = []; streams = true }
      → unauthorized lib auth req ≡ false
      → req.is_upgrade ≡ false
      → req.path ≡ "/sql"
      → (req.method ≡ "GET") ⊎ (req.method ≡ "POST")
      → query.method ≡ req.method
      → media_type (accept lib req) ≡ some query.media_type
      → Admitted lib auth req (on_query r query)
  connected :
      unauthorized lib auth req ≡ false
      → req.is_upgrade ≡ true
      → req.path ≡ "/sql"
      → Admitted lib auth req serve_websocket

module _ (lib : Libraries) (auth : Option String) (req : Request) where
  admit :
      (media : String) {a : Answer}
      → unauthorized lib auth req ≡ false
      → req.is_upgrade ≡ false
      → req.path ≡ "/sql"
      → (req.method ≡ "GET") ⊎ (req.method ≡ "POST")
      → media_type (accept lib req) ≡ some media
      → Queries req.method media req.body a
      → Admitted lib auth req a
  admit media u up path method m (refused bad) = turned_away _ refl (bad_request method bad)
  admit media u up path method m (cut_off e) = lost u (inr e)
  admit media u up path method m (asked r query base e e') =
      queried r query base u up path method e (m ∙ ap some (sym e'))

  route-Admitted :
      (media : String)
      → unauthorized lib auth req ≡ false
      → req.is_upgrade ≡ false
      → media_type (accept lib req) ≡ some media
      → Admitted lib auth req (route lib req media)
  unfolding route
  route-Admitted media u up m = elim (Bool-cases (str_eq req.path "/sql")) [
    | inr e ↦ simp e (turned_away _ refl (wrong_path e))
    | inl e ↦
        let path = str_eq→eq req.path "/sql" e in
        let params = query_params lib req.query in
        elim (Bool-cases (str_eq req.method "GET")) [
          | inl g ↦
              simp (e, g)
                (admit media u up path (inl (str_eq→eq req.method "GET" g)) m
                  (sql_response-Queries params))
          | inr g ↦ elim (Bool-cases (str_eq req.method "POST")) [
            | inr h ↦ simp (e, g, h) (turned_away _ refl (wrong_method g h))
            | inl h ↦ elim (Option-cases (content_type lib req)) [
              | inl c ↦
                  simp (e, g, h, c)
                    (turned_away _ refl (no_content_type (str_eq→eq req.method "POST" h) c))
              | inr (mime, c) ↦
                  simp (e, g, h, c)
                    (admit media u up path (inr (str_eq→eq req.method "POST" h)) m
                      (post_sql-Queries lib req media params mime (content_kind mime.essence_str)))
            ]
          ]
        ]
  ]

  -- Every call of the service ends in a refusal, a lost connection, a query for the engine or a
  -- websocket. A refusal has no streamed body, and a status that says why: 401, 404, 406, 405, 415,
  -- 400 or 422. Only a request that is let in loses its connection, an upgrade or one whose body is
  -- cut off. A query reaches the engine only from a request that is let in, is no upgrade, and
  -- is a GET or a POST to /sql, with the request's method and the media type it accepts; a
  -- websocket only from an upgrade of /sql that is let in.
  pub call-Admitted : (upgrades : Bool) → Admitted lib auth req (call lib auth req upgrades)
  unfolding call
  call-Admitted upgrades = elim (Bool-cases (unauthorized lib auth req)) [
    | inl u ↦ simp u (turned_away _ refl (wrong_credentials u))
    | inr u ↦ elim (Bool-cases req.is_upgrade) [
      | inl up ↦ elim (Bool-cases (str_eq req.path "/sql")) [
        | inr e ↦ simp (u, up, e) (turned_away _ refl (wrong_path e))
        | inl e ↦ elim (Bool-cases upgrades) [
          | inl k ↦ simp (u, up, e, k) (connected u up (str_eq→eq req.path "/sql" e))
          | inr k ↦ simp (u, up, e, k) (lost u (inl up))
        ]
      ]
      | inr up ↦ elim (Option-cases (media_type (accept lib req))) [
        | inl m ↦ simp (u, up, m) (turned_away _ refl (not_acceptable m))
        | inr (media, m) ↦ simp (u, up, m) (route-Admitted media u up m)
      ]
    ]
  ]
