-- ===== src/HttpServer/Server/Validity.antt =====
-- That the sessions of a whole server of deprecated/HttpServer.h stay valid.
use fast_db.Prelude.{ℕ, ◌<◌, bytes_eq, Bool, Option, List, [], Bytes, All}
use fast_db.HttpServer.{State, Response, Environment}
use fast_db.HttpServer.Sessions.Validity.{IsValid, find_or_create_session-IsValid}
use fast_db.HttpServer.Server.Keeping.{routes_of-RoutesKeep, run-keeps}
use fast_db.HttpServer.Handling.{KeepsSessions}
use fast_db.HttpServer.Server.{Registration, routes_of, Open, Event, run}

-- Every user's handler leaves valid sessions valid.
abbrev pub AllUsersKeep : List Registration → Type 0
AllUsersKeep = All (λ r. KeepsSessions r.user)

-- The server starts without sessions. If the draws keep to a byte and every user's handler leaves valid sessions valid, then
-- after any calls of `add_route` and any sequence of requests on any connections and of cleaning up, whatever exceptions and
-- failed writes there are, every key of the sessions is an id of 32 digits and stands once.
pub server-IsValid :
    (env : Environment) (from_right : Bool) (replace_dots : Bytes → Bytes)
    (calls : List Registration) (events : List Event) (connections : List (Option Open))
    (readings : ℕ)
    → ((k i : ℕ) → env.draw k i < 256)
    → AllUsersKeep calls
    → IsValid
        (run env (routes_of env from_right replace_dots calls) events (record {
          state = record { sessions = []; generated = 0; readings = readings };
          connections = connections;
        })).state.sessions
server-IsValid env from_right replace_dots calls events connections readings draws all =
    let finding = λ (id : Bytes) (st : State) (res : Response).
      find_or_create_session-IsValid env id st res draws in
    run-keeps IsValid env finding _
      (routes_of-RoutesKeep IsValid env finding from_right replace_dots calls all) events _ tt
