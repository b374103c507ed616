-- ===== src/Ffi/Start/Laws.antt =====
-- lib/endb_lib/src/lib.rs, `endb_start_server`: basic authentication is a gate before the server.
use mathlib.Core.List.{Memᴰ}
use mathlib.Core.Path.{ap₂}
use text.Mathlib.Text.{◌==◌ as str_eq}
use Prim.Native.String.{◌++◌}
use endb.Prelude.{
  String, Bool, false, Option-cases, Option, none, some, List, [], ◌∷◌, ◌≡◌, refl, map, inl, inr,
  Bool-cases, if◌then◌else◌,
}
use endb.Server.Http.{Request, Libraries}
use endb.Server.Auth.{make_basic_auth_header, sent_auth, unauthorized}
use endb.Server.Service.{call}
use endb.Server.Start.{CommandLineArguments, Connection, Accepted, accepted, Host, EndbService}
use endb.Server.Start.Laws.{start_server-IsFor}
use endb.Ffi.Query.{Engine, Served, sent, serve, finish}
use endb.Ffi.Start.{serve_connection, endb_start_server}

-- whether a request sends the credentials
unfoldable pub sends : Libraries → String → String → Request → Bool
sends lib username password req = elim (sent_auth lib req) [
  | none ↦ false
  | some auth ↦ str_eq ("Basic " ++ lib.base64_encode (username ++ ":" ++ password)) auth
]

-- The gate before what is served: it is there if a user name and a password are given.
unfoldable pub gated : Libraries → Option String → Option String → Request → Served → Served
unfolding sends
gated lib (some username) (some password) req served =
    if sends lib username password req
    then served
    else sent (record {
      status = 401;
      headers = ("www-authenticate", "Basic realm=\"restricted area\"") ∷ [];
      streams = false;
    })
gated lib (some username) none req served = served
gated lib none password req served = served

module _ (lib : Libraries) (engine : Engine) where
  serve-gated :
      (username password : Option String) (req : Request) (upgrades : Bool)
      → serve lib engine (make_basic_auth_header lib username password) req upgrades
        ≡ gated lib username password req (serve lib engine none req upgrades)
  unfolding make_basic_auth_header gated sends serve call unauthorized finish
  serve-gated none none req upgrades = refl
  serve-gated none (some password) req upgrades = refl
  serve-gated (some username) none req upgrades = refl
  serve-gated (some username) (some password) req upgrades =
      elim (Option-cases (sent_auth lib req)) [
        | inl n ↦ simp (n, sends) refl
        | inr (auth, e) ↦
            let header = "Basic " ++ lib.base64_encode (username ++ ":" ++ password) in
            elim (Bool-cases (str_eq header auth)) [
              | inl b ↦ simp (e, sends, b) refl
              | inr b ↦ simp (e, sends, b) refl
            ]
      ]

  serve_all-gated :
      (username password : Option String) (requests : List (Request × Bool))
      → map
          (λ (req, upgrades).
            serve lib engine (make_basic_auth_header lib username password) req upgrades)
          requests
        ≡ map
            (λ (req, upgrades).
              gated lib username password req (serve lib engine none req upgrades))
            requests
  serve_all-gated username password [] = refl
  serve_all-gated username password ((req, upgrades) ∷ requests) =
      ap₂ (λ s l. s ∷ l) (serve-gated username password req upgrades)
        (serve_all-gated username password requests)

  -- Every service that is spawned answers for a connection that was accepted, and as a server
  -- without credentials would, behind a gate: with a user name and a password on the command line,
  -- a request that does not send `Basic ` and the Base64 text of the two with a colon between them
  -- gets the 401 response instead, on every path and for every method; with only one of the two, or
  -- neither, there is no gate.
  pub endb_start_server-gated :
      (host : Host) (args : CommandLineArguments) (incoming : List Accepted) (svc : EndbService)
      (c : Connection)
      → Memᴰ (svc, c) (endb_start_server lib host args incoming).0
      → Memᴰ (accepted c) incoming
        × (serve_connection lib engine (svc, c)
            ≡ map
                (λ (req, upgrades).
                  gated lib args.username args.password req (serve lib engine none req upgrades))
                c.requests)
  unfolding endb_start_server serve_connection
  endb_start_server-gated host args incoming svc c m =
      let for = start_server-IsFor lib host args incoming (svc, c) m in
      (for.was_accepted, rw for.auth_eq (serve_all-gated args.username args.password c.requests))
