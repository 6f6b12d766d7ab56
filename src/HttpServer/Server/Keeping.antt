-- ===== src/HttpServer/Server/Keeping.antt =====
-- What a whole server of deprecated/HttpServer.h keeps: any property of the sessions that finding or making one and the users'
-- handlers keep.
use fast_db.Prelude.{
  ℕ, bytes_eq, ◌=?◌, Bool, Option, none, some, List, [], ◌∷◌, Bytes, get_elem?, All, inl, inr,
  Bool-cases, Option-cases,
}
use fast_db.Prelude.Assoc.{Assoc, find, insert}
use fast_db.HttpServer.{
  SessionsMap, State, Response, table_of, Request, Environment, Route, RoutesMap, RequestHandler,
}
use fast_db.HttpServer.Sessions.{find_or_create_session_impl, cleanup_expired_sessions, dropped}
use fast_db.HttpServer.Routes.{emplace, add_route, or_path, pattern_of}
use fast_db.HttpServer.Handling.{Keeps, handle-keeps}
use fast_db.HttpServer.Serving.{Served, served, threw}
use fast_db.HttpServer.Serving.Requests.{
  Ends, Valid, KeepsRoute, AllKeep, RoutesKeep, find-AllKeep, process_target-Valid,
}
use fast_db.HttpServer.Server.{
  Registration, routes_of, Open, Server, Event, request_on, clean_up, state_after, serve_on,
  on_connection, handle_event, run,
}

-- `P` is the property of the sessions.
module _ (P : SessionsMap → Type 0) where
  insert-AllKeep :
      (path : Bytes) (route : Route) (table : Assoc Bytes Route)
      → KeepsRoute P route
      → AllKeep P table
      → AllKeep P (insert path route table)
  unfolding insert
  insert-AllKeep path route [] keeps all = (keeps, tt)
  insert-AllKeep path route ((key, old) ∷ table) keeps (here, all) =
      elim (Bool-cases (key =? path)) [
        | inl e ↦ rw e (keeps, all)
        | inr e ↦ rw e (here, insert-AllKeep path route table keeps all)
      ]

  emplace-AllKeep :
      (path : Bytes) (route : Route) (table : Assoc Bytes Route)
      → KeepsRoute P route
      → AllKeep P table
      → AllKeep P (emplace path route table)
  unfolding emplace
  emplace-AllKeep path route table keeps all = elim (Option-cases (find path table)) [
    | inl e ↦ rw (e, emplace) (insert-AllKeep path route table keeps all)
    | inr (old, e) ↦ rw (e, emplace) all
  ]

  insert-RoutesKeep :
      (method : Bytes) (table : Assoc Bytes Route) (routes : RoutesMap)
      → AllKeep P table
      → RoutesKeep P routes
      → RoutesKeep P (insert method table routes)
  unfolding insert
  insert-RoutesKeep method table [] all keep = (all, tt)
  insert-RoutesKeep method table ((m, old) ∷ routes) all (here, keep) =
      elim (Bool-cases (m =? method)) [
        | inl e ↦ rw e (all, keep)
        | inr e ↦ rw e (here, insert-RoutesKeep method table routes all keep)
      ]

  add_route-RoutesKeep :
      (replace_dots : Bytes → Bytes) (compiles : Bytes → Bool) (method path : Bytes)
      (handler : RequestHandler) (routes : RoutesMap)
      → ((regex : Bytes) → KeepsRoute P (record { regex = regex; handler = handler }))
      → RoutesKeep P routes
      → RoutesKeep P (add_route replace_dots compiles method path handler routes).0
  unfolding add_route
  add_route-RoutesKeep replace_dots compiles method path handler routes keeps keep =
      let table : Assoc Bytes Route = table_of (find method routes) in
      let tables : AllKeep P table = find-AllKeep P method routes keep in
      let new : Bytes = or_path (pattern_of replace_dots path).0 path in
      elim (Bool-cases (compiles new)) [
        | inl e ↦ rw e (
            insert-RoutesKeep method _ routes (emplace-AllKeep path _ table (keeps new) tables)
              keep)
        | inr e ↦ rw e (insert-RoutesKeep method table routes tables keep)
      ]

  module _ (env : Environment)
      (finding : (id : Bytes) (st : State) (res : Response)
        → P st.sessions
        → P (find_or_create_session_impl env id st res).1.sessions) where
    pub routes_of-RoutesKeep :
        (from_right : Bool) (replace_dots : Bytes → Bytes) (calls : List Registration)
        → All (λ r. Keeps P r.user) calls
        → RoutesKeep P (routes_of env from_right replace_dots calls)
    unfolding routes_of
    routes_of-RoutesKeep from_right replace_dots [] all = tt
    routes_of-RoutesKeep from_right replace_dots (r ∷ calls) (here, all) =
        add_route-RoutesKeep replace_dots env.compiles r.method r.path _ _
          (λ regex req res groups st.
            handle-keeps P env from_right r.types r.user req res groups st (λ id. finding id st res)
              here)
          (routes_of-RoutesKeep from_right replace_dots calls all)

    state_after-keeps : (r : Served) → Ends (Valid P) r → P (state_after r).sessions
    state_after-keeps (served c) valid = valid
    state_after-keeps (threw c) valid = valid

    module _ (routes : RoutesMap) (keep : RoutesKeep P routes) where
      on_connection-keeps :
          (i : ℕ) (req : Request) (o : Option (Option Open)) (s : Server)
          → P s.state.sessions
          → P (on_connection env routes i req o s).state.sessions
      unfolding on_connection serve_on
      on_connection-keeps i req none s valid = valid
      on_connection-keeps i req (some none) s valid = valid
      on_connection-keeps i req (some (some o)) s valid = state_after-keeps _ (
          process_target-Valid P env routes req (env.url_path req.target)
            (record { state = s.state; written = o.written; capacity = o.capacity }) keep valid)

      handle_event-keeps :
          (e : Event) (s : Server)
          → P s.state.sessions
          → P (handle_event env routes e s).state.sessions
      unfolding handle_event
      handle_event-keeps (request_on i req) s valid =
          on_connection-keeps i req (get_elem? s.connections i) s valid
      handle_event-keeps clean_up s valid = unfold cleanup_expired_sessions dropped in valid

      pub run-keeps :
          (events : List Event) (s : Server)
          → P s.state.sessions
          → P (run env routes events s).state.sessions
      unfolding run
      run-keeps [] s valid = valid
      run-keeps (e ∷ events) s valid = run-keeps events _ (handle_event-keeps e s valid)
