-- ===== src/HttpServer/Server.antt =====
-- A whole server of deprecated/HttpServer.h: its routes as the calls of `add_route` leave them, and its connections, whose
-- requests and the cleaning up of sessions come in any order. One request is one event.
pub mod Keeping
pub mod Validity
pub mod Kept
use fast_db.Prelude.{
  ℕ, zero, suc, ◌<◌, bytes_eq, ◌=?◌, Bool, true, false, Option, none, some, List, [], ◌∷◌, Bytes,
  if◌then◌else◌, get_elem?, set, All, ◌≡◌, ◌≢◌, refl, arith, inl, inr, Bool-cases, Option-cases,
}
use fast_db.Prelude.Assoc.{Assoc, find, insert}
use fast_db.HttpServer.{
  table_of, Request, Response, State, Environment, Route, RoutesMap, RequestHandler,
}
use fast_db.HttpServer.Sessions.{cleanup_expired_sessions}
use fast_db.HttpServer.Sessions.Validity.{IsValid, cleanup_expired_sessions-IsValid}
use fast_db.HttpServer.Arguments.{ArgType}
use fast_db.HttpServer.Routes.{emplace, add_route}
use fast_db.HttpServer.Handling.{UserHandler, handle}
use fast_db.HttpServer.Serving.{Connection, Served, served, threw, process_target}
use fast_db.HttpServer.Serving.Requests.{
  Ends, Valid, KeepsRoute, AllKeep, RoutesKeep, process_target-Valid,
}

-- One call of `add_route`.
pub record Registration : Type 0 where
  pub method : Bytes
  pub path : Bytes
  pub types : List ArgType
  pub user : UserHandler

-- The routes after some calls of `add_route`, the last one first. A call that throws leaves its method's table.
unfoldable pub routes_of : Environment → Bool → (Bytes → Bytes) → List Registration → RoutesMap
routes_of env from_right replace_dots [] = []
routes_of env from_right replace_dots (r ∷ calls) =
    (add_route replace_dots env.compiles r.method r.path (handle env from_right r.types r.user)
      (routes_of env from_right replace_dots calls)).0

-- A connection that is open, with what was written on it.
pub record Open : Type 0 where
  pub written : List Response
  pub capacity : ℕ

-- The sessions, and the connections; a closed one is `none`.
pub record Server : Type 0 where
  pub state : State
  pub connections : List (Option Open)

pub data Event : Type 0 where
  request_on : ℕ → Request → Event
  clean_up : Event

abbrev pub opened : Served → Option Open
opened (served c) = some (record { written = c.written; capacity = c.capacity })
opened (threw c) = none

abbrev pub state_after : Served → State
state_after (served c) = c.state
state_after (threw c) = c.state

unfoldable pub serve_on : ℕ → Served → Server → Server
serve_on i r s = record { state = state_after r; connections = set s.connections i (opened r) }

-- A request on a connection that is not open does not reach the server.
unfoldable pub on_connection :
    Environment → RoutesMap → ℕ → Request → Option (Option Open) → Server → Server
unfolding serve_on
on_connection env routes i req none s = s
on_connection env routes i req (some none) s = s
on_connection env routes i req (some (some o)) s =
    let c : Connection = record { state = s.state; written = o.written; capacity = o.capacity } in
    serve_on i (process_target env routes req (env.url_path req.target) c) s

unfoldable pub handle_event : Environment → RoutesMap → Event → Server → Server
unfolding on_connection
handle_event env routes (request_on i req) s =
    on_connection env routes i req (get_elem? s.connections i) s
handle_event env routes clean_up s = record {
  state = cleanup_expired_sessions env s.state;
  connections = s.connections;
}

unfoldable pub run : Environment → RoutesMap → List Event → Server → Server
unfolding handle_event
run env routes [] s = s
run env routes (e ∷ events) s = run env routes events (handle_event env routes e s)
