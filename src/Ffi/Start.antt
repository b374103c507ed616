-- ===== src/Ffi/Start.antt =====
-- lib/endb_lib/src/lib.rs, `endb_start_server`: the server with the callbacks of the engine.
pub mod Laws
use endb.Prelude.{String, Bool, Option, none, some, List, [], ◌∷◌, map}
use endb.Prelude.Text.{Str, codes}
use endb.Server.Http.{Request, Libraries}
use endb.Server.Start.{
  CommandLineArguments, Connection, Accepted, Host, EndbService, Started, start_server,
}
use endb.Ffi.Query.{Engine, Served, serve}
use endb.Ffi.Callback.{Called, callback, string_callback}

-- what the other side of a connection sees, one after the other
unfoldable pub serve_connection : Libraries → Engine → EndbService × Connection → List Served
unfolding serve
serve_connection lib engine (svc, c) =
    map (λ (req, upgrades). serve lib engine svc.basic_auth req upgrades) c.requests

-- `if let Err(err) = ..`
abbrev pub on_error_of : Option String → List Called
on_error_of none = []
on_error_of (some e) = string_callback (codes e) ∷ []

-- the services that were spawned, and the call of `on_error`
unfoldable pub endb_start_server :
    Libraries
    → Host
    → CommandLineArguments
    → List Accepted
    → List (EndbService × Connection) × List Called
unfolding start_server string_callback
endb_start_server lib host args incoming =
    let started = start_server lib host args incoming in
    (started.spawned, on_error_of started.error)

-- `to_json` is `serde_json::to_string`
unfoldable pub endb_parse_command_line_to_json :
    (CommandLineArguments → Str) → CommandLineArguments → Called
unfolding string_callback
endb_parse_command_line_to_json to_json args = string_callback (to_json args)
