-- ===== src/Examples/Web.antt =====
-- A stand-in for the libraries of the server, over ASCII, and requests to it.
use text.Mathlib.Text.{◌==◌ as str_eq}
use endb.Prelude.{
  String, Bool, true, false, ◌&&◌, Option, none, some, List, [], ◌∷◌, refl, if◌then◌else◌, ltb, leb,
  ◌==◌,
}
use endb.Prelude.Text.{codes}
use endb.Server.Http.{Request, Bytes, Libraries}
use endb.Server.Auth.Laws.{AuthLaws, is_plain}

-- the texts that the stand-in reads in headers and bodies
abbrev texts : List String
texts =
    "Basic eDp5" ∷ "application/json" ∷ "text/csv,application/json"
    ∷ "application/x-www-form-urlencoded" ∷ "application/sql" ∷ "SELECT 1" ∷ []

abbrev same_bytes : Bytes → Bytes → Bool
same_bytes [] [] = true
same_bytes (x ∷ xs) (y ∷ ys) = (x == y) && same_bytes xs ys
same_bytes _ _ = false

abbrev find_text : List String → Bytes → Option String
find_text [] bs = none
find_text (t ∷ ts) bs =
    let rest = find_text ts bs in if same_bytes (codes t) bs then some t else rest

abbrev pub toy_libraries : Libraries
toy_libraries = record {
  to_str = find_text texts;
  percent_decode = λ s. some s;
  parse_mime = λ s. some (record { essence_str = s; boundary = none });
  parse_query = λ s. ("p", "[1]") ∷ ("q", s) ∷ [];
  parse_form = λ bs. ("q", "SELECT 2") ∷ ("q", "SELECT 3") ∷ [];
  from_utf8 = find_text texts;
  json_object = λ bs. none;
  multipart_fields = λ s bs. [];
  base64_encode = λ s. "eDp5";
  status_from_u16 = λ n. if leb 100 n && ltb n 1000 then some n else none;
  header_value = λ s. some s;
}

pub toy_libraries-AuthLaws : AuthLaws toy_libraries
unfolding is_plain
toy_libraries-AuthLaws = record { base64_plain = λ s. refl; decode_plain = λ s h. refl }

-- GET /sql?SELECT 1, for text/csv, with the credentials of the user x with the password y
abbrev get_headers : String → Option Bytes
get_headers name =
    if str_eq name "accept"
    then some (codes "text/csv,application/json")
    else if str_eq name "authorization"
    then some (codes "Basic eDp5")
    else none

abbrev pub get_request : Request
get_request = record {
  method = "GET";
  path = "/sql";
  query = some "SELECT 1";
  headers = get_headers;
  body = some [];
  is_upgrade = false;
}

-- the same without credentials
abbrev pub anonymous_request : Request
anonymous_request = record get_request { headers = λ name. none }

abbrev form_headers : String → Option Bytes
form_headers name =
    if str_eq name "content-type" then some (codes "application/x-www-form-urlencoded") else none

-- POST /sql?SELECT 1, with a form
abbrev pub form_request : Request
form_request = record get_request { method = "POST"; headers = form_headers }
