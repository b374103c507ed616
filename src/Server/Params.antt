-- ===== src/Server/Params.antt =====
-- lib/endb_server/src/lib.rs: the parameters of a request, a `HashMap<String, String>`.
pub mod Laws
use text.Mathlib.Text.{◌==◌ as str_eq}
use endb.Prelude.{String, Bool, true, false, Option, none, some, List, [], ◌∷◌, if◌then◌else◌}
use endb.Server.Http.{Libraries, Bytes, JsonValue, string, other}

abbrev pub Params : Type 0
Params = List (String × String)

unfoldable pub lookup : String → Params → Option String
lookup k [] = none
lookup k ((k', v) ∷ ps) = if str_eq k k' then some v else lookup k ps

-- `HashMap::remove`, for the map it leaves
unfoldable pub remove : String → Params → Params
remove k [] = []
remove k ((k', v) ∷ ps) = let rest = remove k ps in if str_eq k k' then rest else (k', v) ∷ rest

-- `HashMap::insert`
unfoldable pub insert : String → String → Params → Params
unfolding remove
insert k v ps = (k, v) ∷ remove k ps

-- the loop `for (k, v) in ..`, and `collect` from an empty map
unfoldable pub insert_all : List (String × String) → Params → Params
unfolding insert
insert_all [] ps = ps
insert_all ((k, v) ∷ kvs) ps = insert_all kvs (insert k v ps)

-- `if let Value::String(v) = v { .. } else { .. v.to_string() }`
abbrev pub json_text : JsonValue → String
json_text (string s) = s
json_text (other s) = s

abbrev pub json_pairs : List (String × JsonValue) → List (String × String)
json_pairs [] = []
json_pairs ((k, v) ∷ kvs) = (k, json_text v) ∷ json_pairs kvs

-- the fields of a multipart body that have a name and a text
abbrev pub field_pairs : List (Option String × Option String) → List (String × String)
field_pairs [] = []
field_pairs ((some k, some v) ∷ fs) = (k, v) ∷ field_pairs fs
field_pairs ((some k, none) ∷ fs) = field_pairs fs
field_pairs ((none, v) ∷ fs) = field_pairs fs

-- `req.uri().query()` as a map
unfoldable pub query_params : Libraries → Option String → Params
unfolding insert_all
query_params lib none = []
query_params lib (some query) = insert_all (lib.parse_query query) []
