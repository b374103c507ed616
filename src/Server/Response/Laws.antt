-- ===== src/Server/Response/Laws.antt =====
-- lib/endb_server/src/lib.rs: what `sql_response` reads of the parameters.
use endb.Prelude.{String, true, Option, none, some, [], ◌≡◌, refl, ◌∙◌, inl, inr, Option-cases}
use endb.Server.Params.{Params, lookup, remove}
use endb.Server.Params.Laws.{lookup-remove_other, Same}
use endb.Server.Response.{Answer, respond, on_query, empty_response, unwrap_or, sql_response}

-- the answer to a query by the values of `q`, `p` and `m` themselves
abbrev pub answer_to : String → String → Option String → Option String → Option String → Answer
answer_to method media none p m = respond (empty_response 422)
answer_to method media (some q) p m =
    on_query (record { status = 500; headers = []; streams = true })
      (record {
        method = method;
        media_type = media;
        q = q;
        p = unwrap_or p "[]";
        m = unwrap_or m "false";
      })

-- `sql_response` reads `q`, `p` and `m` as they stand in the parameters: taking one out of the map
-- does not change the next. Without a `q` it is 422; `p` and `m` have their defaults.
pub sql_response-answer_to :
    (method media : String) (ps : Params)
    → sql_response method media ps
      ≡ answer_to method media (lookup "q" ps) (lookup "p" ps) (lookup "m" ps)
unfolding sql_response
sql_response-answer_to method media ps =
    let p = lookup-remove_other "p" "q" ps refl in
    let m =
      lookup-remove_other "m" "p" (remove "q" ps) refl ∙ lookup-remove_other "m" "q" ps refl in
    elim (Option-cases (lookup "q" ps)) [
      | inl e ↦ rw (sql_response, e) refl
      | inr (q, e) ↦ rw (sql_response, e, p, m) refl
    ]

-- The answer does not depend on the order of the map.
pub sql_response-Same :
    (method media : String) (ps ps' : Params)
    → Same ps ps'
    → sql_response method media ps ≡ sql_response method media ps'
sql_response-Same method media ps ps' h =
    rw
      (
        sql_response-answer_to method media ps,
        sql_response-answer_to method media ps',
        h "q",
        h "p",
        h "m",
      )
      refl
