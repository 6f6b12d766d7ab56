-- ===== src/Tests/ConnectionRuns.antt =====
-- The theorems on the connections of deprecated/HttpServer.h at concrete inputs.
use fast_db.Prelude.{
  suc, ◌+◌, ◌≤◌, bytes_eq, false, List, [], ◌∷◌, Bytes, codes, none, some, ◌≡◌, ◌≢◌, refl, arith,
  bytes_beq,
}
use fast_db.Prelude.Assoc.{Assoc, find}
use fast_db.HttpServer.{
  table_of, Request, new_response, with_result, Response, State, Route, RoutesMap,
}
use fast_db.HttpServer.Sessions.{get_or_create_session}
use fast_db.HttpServer.Arguments.{string_type, uint64_type, number}
use fast_db.HttpServer.Handling.{
  returned, threw_runtime_error, threw_other, handle, handle-to_string_nat,
}
use fast_db.HttpServer.Server.Kept.{run-Has}
use fast_db.Prelude.Decimal.{to_string_nat}
use fast_db.Prelude.{◌<◌, ◌^◌, true}
use fast_db.HttpServer.Serving.{Connection, served, not_found, process_request, process_session}
use fast_db.HttpServer.Serving.Dispatch.{matching, Writes, process_request-responses}
use fast_db.HttpServer.Serving.Patterns.{replace_regexes, process_session-replace_regexes}
use fast_db.Prelude.{Option}
use fast_db.HttpServer.Sessions.Validity.{IsValid}
use fast_db.HttpServer.Server.{Registration, routes_of, Open, Event, request_on, clean_up, run}
use fast_db.HttpServer.Server.Validity.{server-IsValid}
use fast_db.Tests.ServerData.{
  server_env, known_id, known_found, one_session, server_draws, with_cookie, echo_user,
  echo_handler,
}

abbrev post_routes : RoutesMap
post_routes =
    (codes "POST", (codes "/user", record { regex = codes "/user"; handler = echo_handler }) ∷ [])
    ∷ []

abbrev get_file : Request
get_file = record { method = codes "GET"; target = codes "/a.txt"; cookie = none }

abbrev fresh_connection : Connection
fresh_connection = record { state = one_session; written = []; capacity = 9 }

abbrev two_requests : List Request
two_requests = with_cookie ∷ (get_file ∷ [])

abbrev post_table : Assoc Bytes Route
post_table = table_of (find (codes "POST") post_routes)

not_get : with_cookie.method ≢ codes "GET"
not_get h = cc

one_match : suc (matching server_env (codes "/user") post_table) + 0 ≤ 9
unfolding matching find bytes_beq
one_match = omega arith

process_request-responses_example :
    Writes
      (suc (matching server_env (codes "/user") post_table))
      fresh_connection
      (process_request server_env post_routes with_cookie (codes "/user") fresh_connection)
    × (matching server_env (codes "/user") post_table ≡ 0
        → process_request server_env post_routes with_cookie (codes "/user") fresh_connection
          ≡ served
              (record { state = one_session; written = not_found new_response ∷ []; capacity = 9 }))
process_request-responses_example =
    process_request-responses server_env post_routes with_cookie (codes "/user") fresh_connection
      not_get (unfold find bytes_beq in (refl, tt)) one_match

process_session-replace_regexes_example :
    process_session server_env
      (replace_regexes (λ key. codes "x") post_routes)
      two_requests
      fresh_connection
    ≡ process_session server_env post_routes two_requests fresh_connection
process_session-replace_regexes_example =
    process_session-replace_regexes (λ key. codes "x") server_env post_routes two_requests
      fresh_connection

abbrev registered : Registration
registered = record {
  method = codes "POST";
  path = codes "/user";
  types = string_type ∷ [];
  user = echo_user;
}

abbrev one_open : List (Option Open)
one_open = some (record { written = []; capacity = 9 }) ∷ []

abbrev server_events : List Event
server_events = request_on 0 with_cookie ∷ (clean_up ∷ [])

server-IsValid_example :
    IsValid
      (run server_env
        (routes_of server_env false (λ s. s) (registered ∷ []))
        server_events
        (record {
          state = record { sessions = []; generated = 0; readings = 5 };
          connections = one_open;
        })).state.sessions
server-IsValid_example =
    server-IsValid server_env false (λ s. s) (registered ∷ []) server_events one_open 5 server_draws
      ((λ req res session args st valid. valid), tt)

known_session : find known_id one_session.sessions ≢ none
known_session h = let e = known_found in cc

run-Has_example :
    find known_id
      (run server_env
        (routes_of server_env false (λ s. s) (registered ∷ []))
        server_events
        (record { state = one_session; connections = one_open })).state.sessions
    ≢ none
run-Has_example =
    run-Has server_env false (λ s. s) (registered ∷ []) server_events
      (record { state = one_session; connections = one_open })
      (λ q. ((λ req res session args st valid. valid), tt)) known_id known_session

handle-to_string_nat_example :
    let (id, at, prepared) =
      get_or_create_session server_env with_cookie new_response one_session in
    let out =
      handle server_env true
        (uint64_type ∷ [])
        echo_user
        with_cookie
        new_response
        (to_string_nat 42 ∷ [])
        one_session in
    (42 < 2 ^ 64
      → (next : State) (answer : Response)
      → (echo_user with_cookie prepared id (number 42 ∷ []) at ≡ returned next answer
          → out ≡ (next, answer))
        × ((what : Bytes)
            → echo_user with_cookie prepared id (number 42 ∷ []) at
              ≡ threw_runtime_error what next answer
            → out ≡ (next, with_result 400 what answer))
        × (echo_user with_cookie prepared id (number 42 ∷ []) at ≡ threw_other next answer
            → out ≡ (next, with_result 500 (codes "Internal Server Error") answer)))
    × (2 ^ 64 ≤ 42 → out ≡ (at, with_result 400 (codes "convert error") prepared))
handle-to_string_nat_example =
    handle-to_string_nat server_env true echo_user with_cookie new_response 42 one_session
