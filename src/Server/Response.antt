-- ===== src/Server/Response.antt =====
-- lib/endb_server/src/lib.rs: responses, and what the engine may make of one.
pub mod Laws
use text.Mathlib.Text.{◌==◌ as str_eq}
use endb.Prelude.{ℕ, String, Bool, true, false, Option, none, some, List, [], ◌∷◌, if◌then◌else◌}
use endb.Server.Http.{Libraries}
use endb.Server.Params.{Params, insert, lookup, remove}
use endb.Prelude.{◌>>=◌}

-- `streams` where the body is the stream that the engine feeds, empty otherwise
pub record Response : Type 0 where
  pub status : ℕ
  pub headers : Params
  pub streams : Bool

abbrev pub empty_response : ℕ → Response
empty_response status = record { status = status; headers = []; streams = false }

-- the `str`s that `on_query` is called with
pub record Query : Type 0 where
  pub method : String
  pub media_type : String
  pub q : String
  pub p : String
  pub m : String

-- `if let Ok(status_code) = StatusCode::from_u16(status_code) { .. }`
unfoldable pub set_status : Libraries → ℕ → Response → Response
set_status lib status_code r = elim (lib.status_from_u16 status_code) [
  | none ↦ r
  | some status ↦ record r { status = status }
]

-- `if !content_type.is_empty() { .. }`
unfoldable pub set_content_type : Libraries → String → Response → Response
unfolding insert
set_content_type lib content_type r =
    let parsed = lib.header_value content_type in
    if str_eq content_type "" then r else elim parsed [
      | none ↦ r
      | some value ↦ record r { headers = insert "content-type" value r.headers }
    ]

-- The response that goes to the one-shot channel. `tx.send` hands it back if the receiver is gone.
unfoldable pub on_response_init : Libraries → Response → ℕ → String → Response
unfolding set_status set_content_type
on_response_init lib r status_code content_type =
    set_content_type lib content_type (set_status lib status_code r)

abbrev pub unwrap_or : Option String → String → String
unwrap_or none d = d
unwrap_or (some s) d = s

-- How the service answers: by itself, by handing a query to `on_query`, by starting a websocket, or
-- with an error for the connection.
pub data Answer : Type 0 where
  respond : Response → Answer
  on_query : Response → Query → Answer
  serve_websocket : Answer
  failed : Answer

-- `if let .. = parsed { .. } else { empty_response(status) }`
abbrev pub or_status {ℓ} : {A : Type ℓ} → ℕ → Option A → (A → Answer) → Answer
or_status status none k = respond (empty_response status)
or_status status (some a) k = k a

-- `if let Some(q) = params.remove("q") { .. } else { .. }`
unfoldable pub sql_response : String → String → Params → Answer
unfolding lookup remove
sql_response method media_type params = elim (lookup "q" params) [
  | none ↦ respond (empty_response 422)
  | some q ↦
      let params' = remove "q" params in
      let p = unwrap_or (lookup "p" params') "[]" in
      let params'' = remove "p" params' in
      let m = unwrap_or (lookup "m" params'') "false" in
      on_query (record (empty_response 500) { streams = true })
        (record { method = method; media_type = media_type; q = q; p = p; m = m })
]
