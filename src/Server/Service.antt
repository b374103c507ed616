-- ===== src/Server/Service.antt =====
-- lib/endb_server/src/lib.rs, `EndbService::call`.
pub mod Laws
pub mod Form
pub mod Posted
use text.Mathlib.Text.{◌==◌ as str_eq}
use Prim.Native.Char.{code}
use endb.Prelude.{
  ℕ, String, Bool, true, false, ◌||◌, Option, none, some, List, [], ◌∷◌, if◌then◌else◌, ◌==◌,
}
use endb.Server.Http.{Request, Libraries, Mime, Bytes}
use endb.Server.Params.{Params, insert, insert_all, json_pairs, field_pairs, query_params}
use endb.Server.Auth.{unauthorized}
use endb.Server.Response.{
  Response, Answer, respond, serve_websocket, failed, empty_response, or_status, sql_response,
}
use endb.Prelude.{◌>>=◌}

-- `x.split(',').next()`
unfoldable pub first_choice : String → String
first_choice String.[] = ""
first_choice (String.◌∷◌ c s) =
    let rest = first_choice s in if code c == 44 then "" else String.◌∷◌ c rest

abbrev pub essence_or_star : Option Mime → String
essence_or_star none = "*/*"
essence_or_star (some mime) = mime.essence_str

-- the essence of `accept`
unfoldable pub accept : Libraries → Request → String
unfolding first_choice
accept lib req =
    essence_or_star
      do value ← req.headers "accept"; text ← lib.to_str value; lib.parse_mime (first_choice text)

unfoldable pub media_type : String → Option String
media_type essence =
    if str_eq essence "*/*" || str_eq essence "application/*" || str_eq essence "application/json"
    then some "application/json"
    else if str_eq essence "application/ld+json"
    then some "application/ld+json"
    else if str_eq essence "application/x-ndjson"
    then some "application/x-ndjson"
    else if str_eq essence "application/vnd.apache.arrow.file"
    then some "application/vnd.apache.arrow.file"
    else if str_eq essence "text/*" || str_eq essence "text/csv"
    then some "text/csv"
    else none

unfoldable pub content_type : Libraries → Request → Option Mime
content_type lib req = do
  value ← req.headers "content-type"
  text ← lib.to_str value
  lib.parse_mime text

-- `req.collect().await?`
abbrev pub collect : Option Bytes → (Bytes → Answer) → Answer
collect none k = failed
collect (some body) k = k body

-- the patterns of the content type in the `match` arms of `POST /sql`, in their order
pub data ContentKind : Type 0 where
  json sql form multipart unsupported : ContentKind

unfoldable pub content_kind : String → ContentKind
content_kind essence =
    if str_eq essence "application/json" || str_eq essence "application/ld+json"
    then json
    else if str_eq essence "application/sql"
    then sql
    else if str_eq essence "application/x-www-form-urlencoded"
    then form
    else if str_eq essence "multipart/form-data"
    then multipart
    else unsupported

-- the arms
unfoldable pub post_sql : Libraries → Request → String → Params → Mime → ContentKind → Answer
unfolding sql_response insert insert_all
post_sql lib req media params mime json = collect req.body λ body.
    or_status 422 (lib.json_object body)
      λ object. sql_response req.method media (insert_all (json_pairs object) params)
post_sql lib req media params mime sql = collect req.body λ body.
    or_status 422 (lib.from_utf8 body) λ q. sql_response req.method media (insert "q" q params)
post_sql lib req media params mime form =
    collect req.body λ body. sql_response req.method media (insert_all (lib.parse_form body) params)
post_sql lib req media params mime multipart = or_status 400 mime.boundary λ boundary.
    collect req.body λ body.
      sql_response req.method media
        (insert_all (field_pairs (lib.multipart_fields boundary body)) params)
post_sql lib req media params mime unsupported = respond (empty_response 415)

-- the `match` on the method, the path and the content type
unfoldable pub route : Libraries → Request → String → Answer
unfolding query_params content_type content_kind post_sql
route lib req media =
    let params = query_params lib req.query in
    if str_eq req.path "/sql"
    then (if str_eq req.method "GET"
        then sql_response req.method media params
        else if str_eq req.method "POST"
        then or_status 415 (content_type lib req)
            (λ mime. post_sql lib req media params mime (content_kind mime.essence_str))
        else respond (record (empty_response 405) { headers = ("allow", "GET, POST") ∷ [] }))
    else respond (empty_response 404)

abbrev pub unauthorized_response : Response
unauthorized_response = record (empty_response 401) {
  headers = ("www-authenticate", "Basic realm=\"restricted area\"") ∷ [];
}

-- `upgrades` is whether `hyper_tungstenite::upgrade` succeeds
unfoldable pub call : Libraries → Option String → Request → Bool → Answer
unfolding unauthorized accept media_type route
call lib basic_auth req upgrades =
    if unauthorized lib basic_auth req
    then respond unauthorized_response
    else if req.is_upgrade
    then (if str_eq req.path "/sql"
        then (if upgrades then serve_websocket else failed)
        else respond (empty_response 404))
    else or_status 406 (media_type (accept lib req)) (route lib req)
