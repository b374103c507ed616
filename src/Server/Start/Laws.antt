-- ===== src/Server/Start/Laws.antt =====
-- lib/endb_server/src/lib.rs, `start_server`: the services that it starts.
use mathlib.Core.List.{Memᴰ}
use mathlib.Core.List.Memᴰ.{head, tail, cases_cons, not-nil}
use endb.Prelude.{String, Option, none, some, List, [], ◌∷◌, ◌≡◌, refl, inl, inr}
use endb.Server.Http.{Libraries}
use endb.Server.Auth.{make_basic_auth_header}
use endb.Server.Start.{
  CommandLineArguments, Connection, Accepted, accepted, accept_error, Host, EndbService, Started,
  accept_loop, unless, start_server,
}

-- A service has the header and the address of a connection that was accepted.
pub record IsFor (basic_auth : Option String) (incoming : List Accepted)
    (s : EndbService × Connection) : Type 0 where
  pub auth_eq : s.0.basic_auth ≡ basic_auth
  pub addr_eq : s.0.remote_addr ≡ s.1.remote_addr
  pub was_accepted : Memᴰ (accepted s.1) incoming

accept_loop-IsFor :
    (auth : Option String) (incoming : List Accepted) (s : EndbService × Connection)
    → Memᴰ s (accept_loop auth incoming).spawned
    → IsFor auth incoming s
unfolding accept_loop
accept_loop-IsFor auth [] s m = absurd (not-nil m)
accept_loop-IsFor auth (accept_error e ∷ rest) s m = absurd (not-nil m)
accept_loop-IsFor auth (accepted c ∷ rest) s m = elim (cases_cons m) [
  | inl e ↦ rw e (record { auth_eq = refl; addr_eq = refl; was_accepted = head refl })
  | inr m' ↦
      let h = accept_loop-IsFor auth rest s m' in
      record { auth_eq = h.auth_eq; addr_eq = h.addr_eq; was_accepted = tail h.was_accepted }
]

unless_spawned :
    (error : Option String) (started : Started) {s : EndbService × Connection}
    → Memᴰ s (unless error started).spawned
    → Memᴰ s started.spawned
unless_spawned none started m = m
unless_spawned (some e) started m = absurd (not-nil m)

pub start_server-IsFor :
    (lib : Libraries) (host : Host) (args : CommandLineArguments) (incoming : List Accepted)
    (s : EndbService × Connection)
    → Memᴰ s (start_server lib host args incoming).spawned
    → IsFor (make_basic_auth_header lib args.username args.password) incoming s
unfolding start_server
start_server-IsFor lib host args incoming s m =
    accept_loop-IsFor _ incoming s
      (unless_spawned (host.bind_error args.http_port) _ (unless_spawned host.build_error _ m))
