-- ===== src/Tests/ServerData.antt =====
-- Concrete data of deprecated/HttpServer.h.
use fast_db.Prelude.{
  ℕ, ◌<◌, bytes_eq, ◌=?◌, =?_self, true, false, [], ◌∷◌, ◌++◌, Bytes, codes, none, some,
  if◌then◌else◌, ◌≡◌, refl, arith,
}
use fast_db.Prelude.Assoc.{find}
use fast_db.HttpServer.{SessionData, Request, State, Environment, RoutesMap, RequestHandler}
use fast_db.HttpServer.Sessions.{generate_session_id}
use fast_db.HttpServer.Sessions.Ids.{generate_session_id-IsSessionId}
use fast_db.HttpServer.Sessions.Validity.{IsValid}
use fast_db.HttpServer.Arguments.{string_type}
use fast_db.HttpServer.Handling.{returned, UserHandler, bad_request, handle}

-- A key matches the path that is equal to it; one file is there.
abbrev pub server_env : Environment
server_env = record {
  draw = λ k i. 171;
  clock = λ i. 7;
  url_path = λ target. some target;
  file = λ path. if path =? codes "./static//a.txt" then some (codes "text") else none;
  read_some = λ path size. size;
  compiles = λ pattern. true;
  regex_match = λ pattern path. if pattern =? path then some (codes "12" ∷ []) else none;
}

abbrev pub known_id : Bytes
known_id = generate_session_id (λ i. 119)

abbrev pub known_data : SessionData
known_data = record { user_id = codes "anna"; last_access_time = 3; database = none }

abbrev pub one_session : State
one_session = record { sessions = (known_id, known_data) ∷ []; generated = 1; readings = 1 }

pub known_found : find known_id one_session.sessions ≡ some known_data
unfolding find
known_found = rw (=?_self known_id) refl

pub one_session-IsValid : IsValid one_session.sessions
unfolding find
one_session-IsValid = (generate_session_id-IsSessionId (λ i. 119) (λ i. omega arith), (refl, tt))

pub server_draws : (k i : ℕ) → server_env.draw k i < 256
server_draws k i = omega arith

abbrev pub with_cookie : Request
with_cookie = record {
  method = codes "POST";
  target = codes "/user";
  cookie = some (codes "session_id=" ++ (known_id ++ codes "; theme=dark"));
}

-- A handler that answers with the session's pointer.
abbrev pub echo_user : UserHandler
echo_user req res session args st = returned st (bad_request session res)

abbrev pub echo_handler : RequestHandler
echo_handler = handle server_env false (string_type ∷ []) echo_user

abbrev pub no_routes : RoutesMap
no_routes = []

abbrev pub dark : Bytes
dark = codes "; theme=dark"
