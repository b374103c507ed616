-- ===== src/Server/Service/Form.antt =====
-- lib/endb_server/src/lib.rs, `EndbService::call`: a form that is posted to /sql.
use text.Mathlib.Text.{◌==◌ as str_eq}
use mathlib.Core.List.{reverse}
use endb.Prelude.{String, true, false, some, List, ◌++◌, ◌≡◌, refl, sym, subst}
use endb.Server.Http.{Request, Libraries, Mime, Bytes}
use endb.Server.Params.{Params, lookup, insert_all, query_params}
use endb.Server.Params.Laws.{lookup-insert_all, str_eq_refl}
use endb.Server.Response.{Answer, sql_response}
use endb.Server.Response.Laws.{sql_response-answer_to, answer_to}
use endb.Server.Service.{form, content_type, content_kind, route}

-- the answer to a query by the parameters
abbrev pub answer_from : String → String → Params → Answer
answer_from method media ps = answer_to method media (lookup "q" ps) (lookup "p" ps) (lookup "m" ps)

pub insert_all-answer_from :
    (method media : String) (kvs : List (String × String)) (ps : Params)
    → sql_response method media (insert_all kvs ps) ≡ answer_from method media (reverse kvs ++ ps)
insert_all-answer_from method media kvs ps =
    rw
      (
        sql_response-answer_to method media (insert_all kvs ps),
        lookup-insert_all "q" kvs ps,
        lookup-insert_all "p" kvs ps,
        lookup-insert_all "m" kvs ps,
      )
      refl

pub is_same : {s t : String} → s ≡ t → str_eq s t ≡ true
is_same {s} e = subst (λ u. str_eq s u ≡ true) e (str_eq_refl s)

-- A form that is posted to /sql is answered by its own pairs, the last of a name first, and for a
-- name that is not in it by the query of the address.
route-form :
    (lib : Libraries) (req : Request) (media : String) (mime : Mime) (body : Bytes)
    → req.path ≡ "/sql"
    → req.method ≡ "POST"
    → content_type lib req ≡ some mime
    → content_kind mime.essence_str ≡ form
    → req.body ≡ some body
    → route lib req media
      ≡ answer_from req.method media (reverse (lib.parse_form body) ++ query_params lib req.query)
unfolding route
route-form lib req media mime body path method type kind b =
    let get : str_eq req.method "GET" ≡ false =
      subst (λ u. str_eq u "GET" ≡ false) (sym method) refl in
    simp (is_same path, get, is_same method, type, kind, b)
      (insert_all-answer_from req.method media (lib.parse_form body) (query_params lib req.query))
