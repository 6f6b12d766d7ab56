-- ===== src/HttpServer/Server/Kept.antt =====
-- That the server of deprecated/HttpServer.h removes no session.
use fast_db.Prelude.{bytes_eq, Bool, none, List, Bytes, All, ◌≢◌, Option-cases, inl, inr, arith}
use fast_db.Prelude.Assoc.{find, find-insert}
use fast_db.HttpServer.{SessionsMap, State, Response, Environment}
use fast_db.HttpServer.Sessions.{
  generate_session_id, touched, new_session_data, found, created, find_or_create_session_impl,
}
use fast_db.HttpServer.Sessions.Validity.{
  find_or_create_session_impl-known, find_or_create_session_impl-unknown,
}
use fast_db.HttpServer.Handling.{Keeps}
use fast_db.HttpServer.Server.{Registration, routes_of, Server, Event, run}
use fast_db.HttpServer.Server.Keeping.{routes_of-RoutesKeep, run-keeps}

-- The sessions have one under the id.
abbrev pub Has : Bytes → SessionsMap → Type 0
Has q m = find q m ≢ none

find_or_create_session_impl-Has :
    (env : Environment) (q id : Bytes) (st : State) (res : Response)
    → Has q st.sessions
    → Has q (find_or_create_session_impl env id st res).1.sessions
unfolding found created
find_or_create_session_impl-Has env q id st res h = elim (Option-cases (find id st.sessions)) [
  | inl e ↦
      let new : Bytes = generate_session_id (env.draw st.generated) in
      rw (find_or_create_session_impl-unknown env id st res e) (λ gone.
        ground (
          arith,
          find-insert new q (new_session_data (env.clock st.readings)) st.sessions,
          gone,
          h,
        ))
  | inr (d, e) ↦ rw (find_or_create_session_impl-known env id d st res e) (λ gone.
      ground (arith, find-insert id q (touched (env.clock st.readings) d) st.sessions, gone, h))
]

-- However late it is and however often the cleaning up is started, the server keeps every session: if no user's handler
-- removes a session, then after any calls of `add_route`, every session that is there is still there after any sequence of
-- requests on any connections and of cleaning up, whatever exceptions and failed writes there are.
pub run-Has :
    (env : Environment) (from_right : Bool) (replace_dots : Bytes → Bytes)
    (calls : List Registration) (events : List Event) (s : Server)
    → ((q : Bytes) → All (λ r. Keeps (Has q) r.user) calls)
    → (q : Bytes) → find q s.state.sessions ≢ none
    → find q (run env (routes_of env from_right replace_dots calls) events s).state.sessions ≢ none
run-Has env from_right replace_dots calls events s keep q h =
    let finding = find_or_create_session_impl-Has env q in
    run-keeps (Has q) env finding _
      (routes_of-RoutesKeep (Has q) env finding from_right replace_dots calls (keep q)) events s h
