-- ===== src/Tests/ServerRuns.antt =====
-- The theorems on deprecated/HttpServer.h at concrete inputs.
use fast_db.Prelude.{
  ◌<◌, ◌≤◌, ◌^◌, bytes_eq, true, List, [], ◌∷◌, ◌++◌, Bytes, codes, none, some, ◌≡◌, ◌≢◌, refl,
}
use fast_db.Prelude.Assoc.{find}
use fast_db.Prelude.Decimal.{to_string_nat}
use fast_db.HttpServer.{new_response, Route}
use fast_db.HttpServer.Sessions.{
  generate_session_id, find_or_create_session_impl, get_or_create_session, cookie_text,
}
use fast_db.HttpServer.Sessions.Cookies.{
  IsSessionOf, find_or_create_session_lem, get_or_create_session-cookie,
}
use fast_db.HttpServer.Arguments.{
  uint64_type, string_type, number, text, convert_arg, convert_arg-to_string_nat,
}
use fast_db.HttpServer.Routes.{add_route, pattern_of}
use fast_db.HttpServer.Routes.Pieces.{Piece, path_of, regex_of, names_of}
use fast_db.HttpServer.Routes.Placeholders.{pattern_of-path_of}
use fast_db.HttpServer.Routes.Table.{route_at, new_route, add_route_lem}
use fast_db.Tests.ServerData.{
  server_env, known_id, known_data, one_session, known_found, one_session-IsValid, with_cookie,
  echo_handler, no_routes, dark,
}

find_or_create_session_lem_example :
    IsSessionOf server_env known_id one_session new_response
      (find_or_create_session_impl server_env known_id one_session new_response).0
      (find_or_create_session_impl server_env known_id one_session new_response).1
      (find_or_create_session_impl server_env known_id one_session new_response).2
    × ((q : Bytes)
        → (find_or_create_session_impl server_env known_id one_session new_response).0 ≢ q
        → find q
            (find_or_create_session_impl server_env known_id one_session new_response).1.sessions
          ≡ find q one_session.sessions)
find_or_create_session_lem_example =
    find_or_create_session_lem server_env known_id one_session new_response

get_or_create_session-cookie_example :
    (dark ≡ []
      → ((get_or_create_session server_env with_cookie new_response one_session).0 ≡ known_id)
        × ((get_or_create_session server_env with_cookie new_response one_session).2
            ≡ new_response))
    × (dark ≢ []
        → ((get_or_create_session server_env with_cookie new_response one_session).0
            ≡ generate_session_id (server_env.draw 1))
          × ((get_or_create_session server_env with_cookie new_response one_session).2.set_cookie
              ≡ some (
                  cookie_text
                    (get_or_create_session server_env with_cookie new_response one_session).0)))
get_or_create_session-cookie_example =
    get_or_create_session-cookie server_env known_id dark known_data with_cookie one_session
      new_response one_session-IsValid known_found refl

convert_arg-to_string_nat_example :
    (42 < 2 ^ 64 → convert_arg uint64_type (to_string_nat 42 ++ codes "x") ≡ some (number 42))
    × ((2 ^ 64 ≤ 42 → convert_arg uint64_type (to_string_nat 42 ++ codes "x") ≡ none)
        × (convert_arg string_type (to_string_nat 42 ++ codes "x")
            ≡ some (text (to_string_nat 42 ++ codes "x"))))
convert_arg-to_string_nat_example = convert_arg-to_string_nat 42 (codes "x") refl

abbrev user_pieces : List Piece
user_pieces = (codes "/user/", codes "id") ∷ (codes "/x", codes "name") ∷ []

pattern_of-path_of_example :
    pattern_of (λ s. s) (path_of user_pieces (codes ".x"))
    ≡ (regex_of (λ s. s) user_pieces (codes ".x"), names_of user_pieces)
pattern_of-path_of_example =
    pattern_of-path_of (λ s. s) user_pieces (codes ".x")
      (
        ((refl, (refl, (refl, (refl, (refl, (refl, tt)))))), ((λ h. cc), (refl, (refl, tt)))),
        (((refl, (refl, tt)), ((λ h. cc), (refl, (refl, (refl, (refl, tt)))))), tt),
      )
      (refl, (refl, tt))

add_route_lem_example :
    ((add_route (λ s. s) (λ p. true) (codes "POST") (codes "/user") echo_handler no_routes).1
      ≡ true)
    × ((((old : Route)
            → route_at (codes "POST") (codes "/user") no_routes ≡ some old
            → route_at
                (codes "POST")
                (codes "/user")
                (add_route
                  (λ s. s)
                  (λ p. true)
                  (codes "POST")
                  (codes "/user")
                  echo_handler
                  no_routes).0
              ≡ some old)
          × (route_at (codes "POST") (codes "/user") no_routes ≡ none
              → route_at
                  (codes "POST")
                  (codes "/user")
                  (add_route
                    (λ s. s)
                    (λ p. true)
                    (codes "POST")
                    (codes "/user")
                    echo_handler
                    no_routes).0
                ≡ some (new_route (λ s. s) (codes "/user") echo_handler)))
        × (((q : Bytes)
              → codes "/user" ≢ q
              → route_at
                  (codes "POST")
                  q
                  (add_route
                    (λ s. s)
                    (λ p. true)
                    (codes "POST")
                    (codes "/user")
                    echo_handler
                    no_routes).0
                ≡ route_at (codes "POST") q no_routes)
            × ((m : Bytes)
                → codes "POST" ≢ m
                → find m
                    (add_route
                      (λ s. s)
                      (λ p. true)
                      (codes "POST")
                      (codes "/user")
                      echo_handler
                      no_routes).0
                  ≡ find m no_routes)))
add_route_lem_example =
    add_route_lem (λ s. s) (λ p. true) (codes "POST") (codes "/user") echo_handler no_routes
