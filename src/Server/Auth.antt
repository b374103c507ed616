-- ===== src/Server/Auth.antt =====
-- lib/endb_server/src/lib.rs: basic authentication.
pub mod Laws
use text.Mathlib.Text.{◌==◌ as str_eq}
use Prim.Native.String.{◌++◌}
use endb.Prelude.{String, Bool, true, false, not, Option, none, some, if◌then◌else◌}
use endb.Server.Http.{Request, Libraries}
use endb.Prelude.{◌>>=◌}

unfoldable pub make_basic_auth_header : Libraries → Option String → Option String → Option String
make_basic_auth_header lib (some username) (some password) =
    some ("Basic " ++ lib.base64_encode (username ++ ":" ++ password))
make_basic_auth_header lib _ _ = none

abbrev pub auth_header : Request → String
auth_header req = if req.is_upgrade then "sec-websocket-protocol" else "authorization"

-- what the request sends in that header, decoded
unfoldable pub sent_auth : Libraries → Request → Option String
sent_auth lib req = do
  value ← req.headers (auth_header req)
  text ← lib.to_str value
  lib.percent_decode text

-- `==` of two `Option<&str>`
abbrev pub option_eq : Option String → Option String → Bool
option_eq none none = true
option_eq none (some b) = false
option_eq (some a) none = false
option_eq (some a) (some b) = str_eq a b

unfoldable pub unauthorized : Libraries → Option String → Request → Bool
unfolding sent_auth
unauthorized lib none req = false
unauthorized lib (some auth) req = not (option_eq (some auth) (sent_auth lib req))
