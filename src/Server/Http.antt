-- ===== src/Server/Http.antt =====
-- lib/endb_server/src/lib.rs: what the service sees of a request, and the library functions that it
-- calls on it.
use endb.Prelude.{ℕ, String, Bool, Option, List}

-- the contents of a header or a body
abbrev pub Bytes : Type 0
Bytes = List ℕ

-- `hyper::Request`: `headers` finds a header by its name, `query` is what follows `?`, `body` is
-- what collecting the body comes to, `none` an error of the connection
pub record Request : Type 0 where
  pub method : String
  pub path : String
  pub query : Option String
  pub headers : String → Option Bytes
  pub body : Option Bytes
  pub is_upgrade : Bool

-- `mime::Mime`, by `essence_str` and the parameter `boundary`
pub record Mime : Type 0 where
  pub essence_str : String
  pub boundary : Option String

-- a value in a JSON object: a string, or another value by its text
pub data JsonValue : Type 0 where
  string : String → JsonValue
  other : String → JsonValue

-- The functions of the libraries: `HeaderValue::to_str`, `percent_decode_str` with `decode_utf8`,
-- `str::parse::<Mime>`, `form_urlencoded::parse` of the bytes of a text and of a body, `from_utf8`,
-- `serde_json::from_slice` where it gives an object, the fields of a multipart body up to the first
-- error, with their names and texts, `base64::STANDARD.encode`, `StatusCode::from_u16` and
-- `str::parse::<HeaderValue>`.
pub record Libraries : Type 0 where
  pub to_str : Bytes → Option String
  pub percent_decode : String → Option String
  pub parse_mime : String → Option Mime
  pub parse_query : String → List (String × String)
  pub parse_form : Bytes → List (String × String)
  pub from_utf8 : Bytes → Option String
  pub json_object : Bytes → Option (List (String × JsonValue))
  pub multipart_fields : String → Bytes → List (Option String × Option String)
  pub base64_encode : String → String
  pub status_from_u16 : ℕ → Option ℕ
  pub header_value : String → Option String
