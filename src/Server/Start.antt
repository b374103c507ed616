-- ===== src/Server/Start.antt =====
-- lib/endb_server/src/lib.rs, `start_server`: from the command line to the service of a connection.
pub mod Laws
use endb.Prelude.{ℕ, String, Bool, Option, none, some, List, [], ◌∷◌}
use endb.Server.Http.{Request, Libraries}
use endb.Server.Auth.{make_basic_auth_header}

pub record CommandLineArguments : Type 0 where
  pub data_directory : String
  pub http_port : ℕ
  pub username : Option String
  pub password : Option String

-- a connection: the address of the other side, and the requests that hyper hands to the service,
-- each with whether its upgrade succeeds
pub record Connection : Type 0 where
  pub remote_addr : String
  pub requests : List (Request × Bool)

-- what `listener.accept()` gives; a list of these that ends is a server that still listens
pub data Accepted : Type 0 where
  accepted : Connection → Accepted
  accept_error : String → Accepted

-- The runtime and the listener, by the text of the error where there is one.
pub record Host : Type 0 where
  pub build_error : Option String
  pub bind_error : ℕ → Option String

-- the callbacks of the engine are the same for all services
pub record EndbService : Type 0 where
  pub basic_auth : Option String
  pub remote_addr : String

-- what was spawned, and the error that the server ended with, if it did
pub record Started : Type 0 where
  pub spawned : List (EndbService × Connection)
  pub error : Option String

abbrev pub and_spawned : EndbService × Connection → Started → Started
and_spawned s started = record started { spawned = s ∷ started.spawned }

-- the `loop`
unfoldable pub accept_loop : Option String → List Accepted → Started
accept_loop basic_auth [] = record { spawned = []; error = none }
accept_loop basic_auth (accept_error e ∷ rest) = record { spawned = []; error = some e }
accept_loop basic_auth (accepted c ∷ rest) =
    and_spawned (record { basic_auth = basic_auth; remote_addr = c.remote_addr }, c)
      (accept_loop basic_auth rest)

-- `?`
abbrev pub unless : Option String → Started → Started
unless none started = started
unless (some e) started = record { spawned = []; error = some e }

unfoldable pub start_server : Libraries → Host → CommandLineArguments → List Accepted → Started
unfolding make_basic_auth_header accept_loop
start_server lib host args incoming =
    let basic_auth = make_basic_auth_header lib args.username args.password in
    unless host.build_error
      (unless (host.bind_error args.http_port) (accept_loop basic_auth incoming))
