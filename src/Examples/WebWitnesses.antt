-- ===== src/Examples/WebWitnesses.antt =====
-- The theorems on the server at inputs that meet their hypotheses.
use endb.Prelude.{
  ℕ, List, ◌⊎◌, none, String, true, false, Option, some, [], ◌∷◌, ◌++◌, ◌≡◌, refl, map,
}
use Prim.Native.Char.{nul}
use endb.Prelude.Text.{codes}
use endb.Server.Params.{query_params, lookup}
use endb.Server.Auth.{unauthorized, make_basic_auth_header}
use endb.Server.Auth.Laws.{credentials_accepted}
use endb.Server.Http.{Mime}
use endb.Server.Response.{Query, on_query, sql_response}
use endb.Server.Response.Laws.{sql_response-answer_to, answer_to}
use endb.Server.Service.Posted.{Says, route-posted, answer_posted}
use endb.Server.Service.{route, content_type, call}
use endb.Server.Service.Laws.{Admitted, call-Admitted}
use endb.Server.Websocket.{
  serve_websocket, data_message, control_message, broken, on_ws_init, on_ws_message,
}
use endb.Server.Websocket.Laws.{serve_websocket_lem}
use endb.Ffi.Query.{Engine, serve, connection_error, has_no_nul, sent}
use endb.Ffi.Query.Laws.{Seen, serve-Seen, serve-nul}
use endb.Examples.Web.{
  form_request, toy_libraries, toy_libraries-AuthLaws, get_request, anonymous_request,
}

abbrev form_mime : Mime
form_mime = record { essence_str = "application/x-www-form-urlencoded"; boundary = none }

abbrev credentials : Option String
credentials = some "Basic eDp5"

abbrev pub select_query : Query
select_query = record {
  method = "GET";
  media_type = "text/csv";
  q = "SELECT 1";
  p = "[1]";
  m = "false";
}

select_call :
    call toy_libraries credentials get_request false
    ≡ on_query (record { status = 500; headers = []; streams = true }) select_query
unfolding call
select_call = refl

call-Admitted_example :
    Admitted toy_libraries credentials anonymous_request
      (call toy_libraries credentials anonymous_request false)
call-Admitted_example = call-Admitted toy_libraries credentials anonymous_request false

abbrev pub answering : Engine
answering query = some (200, query.media_type)

serve-Seen_example :
    Seen toy_libraries answering credentials get_request false
      (serve toy_libraries answering credentials get_request false)
serve-Seen_example = serve-Seen toy_libraries answering credentials get_request false

select_served :
    serve toy_libraries answering credentials get_request false
    ≡ sent (record { status = 200; headers = ("content-type", "text/csv") ∷ []; streams = true })
unfolding serve
select_served = refl

credentials_accepted_example :
    unauthorized toy_libraries
      (make_basic_auth_header toy_libraries (some "x") (some "y"))
      get_request
    ≡ false
unfolding make_basic_auth_header
credentials_accepted_example =
    credentials_accepted toy_libraries "x" "y" "Basic eDp5" get_request (codes "Basic eDp5")
      toy_libraries-AuthLaws refl refl refl

sql_response-answer_to_example :
    sql_response "GET" "text/csv" (("m", "true") ∷ ("q", "SELECT 1") ∷ [])
    ≡ answer_to "GET" "text/csv"
        (lookup "q" (("m", "true") ∷ ("q", "SELECT 1") ∷ []))
        (lookup "p" (("m", "true") ∷ ("q", "SELECT 1") ∷ []))
        (lookup "m" (("m", "true") ∷ ("q", "SELECT 1") ∷ []))
sql_response-answer_to_example =
    sql_response-answer_to "GET" "text/csv" (("m", "true") ∷ ("q", "SELECT 1") ∷ [])

serve_websocket_lem_example :
    serve_websocket "[::1]:1" (data_message [] ∷ control_message ∷ broken ∷ [])
    ≡ on_ws_init "[::1]:1" ∷ (map (on_ws_message "[::1]:1") ([] ∷ []) ++ [])
serve_websocket_lem_example =
    serve_websocket_lem "[::1]:1" (data_message [] ∷ control_message ∷ broken ∷ [])

-- GET /sql with a NUL for a query
abbrev nul_text : String
nul_text = String.◌∷◌ nul ""

serve-nul_example :
    serve toy_libraries answering credentials (record get_request { query = some nul_text }) false
    ≡ connection_error
unfolding has_no_nul unauthorized endb.Server.Service.media_type endb.Server.Service.accept lookup
    query_params
serve-nul_example =
    serve-nul toy_libraries answering credentials (record get_request { query = some nul_text })
      false "text/csv" nul_text refl refl refl refl refl refl refl

route-posted_example :
    (said : ℕ ⊎ List (String × String)) × Says toy_libraries form_mime [] said
    × (route toy_libraries form_request "application/json"
        ≡ answer_posted "POST" "application/json"
            (query_params toy_libraries form_request.query)
            said)
unfolding content_type
route-posted_example =
    route-posted toy_libraries form_request "application/json" form_mime [] refl refl refl refl
