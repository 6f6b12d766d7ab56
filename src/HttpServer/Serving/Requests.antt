-- ===== src/HttpServer/Serving/Requests.antt =====
-- What a whole connection of deprecated/HttpServer.h keeps: any property of the sessions that the stored handlers keep.
use fast_db.Prelude.{
  bytes_eq, ◌=?◌, ◌&&◌, Option, none, some, List, [], ◌∷◌, Bytes, codes, length, ltb, inl, inr,
  Option-cases, Bool-cases, All,
}
use fast_db.Prelude.Assoc.{Assoc, find}
use fast_db.StringUtil.Search
use fast_db.HttpServer.{
  SessionsMap, table_of, Request, Response, new_response, with_content_type, State, Environment,
  Route, RoutesMap,
}
use fast_db.HttpServer.MimeTypes.{mime_type}
use fast_db.HttpServer.Serving.{
  Connection, Served, served, threw, write, after_write, answer, write_routed, final_response,
  run_route, serve_file, serve_static, file_path_of, route_loop, process_request, process_target,
  process_session, after,
}

-- A property of the connection, whichever way a request ends.
abbrev pub Ends : (Connection → Type 0) → Served → Type 0
Ends P (served c) = P c
Ends P (threw c) = P c

-- `P` is the property of the sessions.
module _ (P : SessionsMap → Type 0) where
  abbrev pub Valid : Connection → Type 0
  Valid c = P c.state.sessions

  -- A route whose handler keeps the property.
  abbrev pub KeepsRoute : Route → Type 0
  KeepsRoute route =
      (req : Request) (res : Response) (groups : List Bytes) (st : State)
      → P st.sessions
      → P (route.handler req res groups st).0.sessions

  abbrev pub AllKeep : Assoc Bytes Route → Type 0
  AllKeep = All (λ p. KeepsRoute p.1)

  abbrev pub RoutesKeep : RoutesMap → Type 0
  RoutesKeep = All (λ p. AllKeep p.1)

  pub find-AllKeep :
      (method : Bytes) (routes : RoutesMap)
      → RoutesKeep routes
      → AllKeep (table_of (find method routes))
  unfolding find
  find-AllKeep method [] keep = tt
  find-AllKeep method ((m, table) ∷ routes) (here, keep) = elim (Bool-cases (m =? method)) [
    | inl e ↦ rw e here
    | inr e ↦ rw e (find-AllKeep method routes keep)
  ]

  answer-Valid : (res : Response) (c : Connection) → Valid c → Ends Valid (answer res c)
  unfolding answer after_write
  answer-Valid res c valid = elim (Bool-cases (ltb (length c.written) c.capacity)) [
    | inl e ↦ rw (e, write, Ends) valid
    | inr e ↦ rw (e, write, Ends) valid
  ]

  run_route-Valid :
      (route : Route) (req : Request) (res : Response) (groups : List Bytes) (c : Connection)
      → KeepsRoute route
      → Valid c
      → Valid (run_route route req res groups c).1
  unfolding run_route write_routed
  run_route-Valid route req res groups c keeps valid =
      elim (Bool-cases (ltb (length c.written) c.capacity)) [
        | inl e ↦ rw (e, write) (keeps req _ groups c.state valid)
        | inr e ↦ rw (e, write) (keeps req _ groups c.state valid)
      ]

  route_loop-Valid :
      (env : Environment) (req : Request) (path : Bytes) (table : Assoc Bytes Route)
      (res : Response) (c : Connection)
      → AllKeep table
      → Valid c
      → Ends Valid (route_loop env req path table res c)
  unfolding route_loop
  route_loop-Valid env req path [] res c keep valid = answer-Valid (final_response res) c valid
  route_loop-Valid env req path ((key, route) ∷ table) res c (keeps, keep) valid =
      elim (Bool-cases (env.compiles key)) [
        | inl e ↦ elim (Option-cases (env.regex_match key path)) [
          | inl g ↦ rw (e, g) (route_loop-Valid env req path table res c keep valid)
          | inr (groups, g) ↦
              let out = run_route route req res groups c in
              let still = run_route-Valid route req res groups c keeps valid in
              rw (e, g) (route_loop-Valid env req path table out.0 out.1 keep still)
        ]
        | inr e ↦ rw e valid
      ]

  serve_file-Valid :
      (env : Environment) (file_path : Bytes) (res : Response) (file : Option Bytes)
      (c : Connection)
      → Valid c
      → Ends Valid (serve_file env file_path res file c)
  unfolding serve_file
  serve_file-Valid env file_path res none c valid = answer-Valid _ c valid
  serve_file-Valid env file_path res (some content) c valid = answer-Valid _ c valid

  serve_static-Valid :
      (env : Environment) (file_path : Bytes) (mime : Option Bytes) (c : Connection)
      → Valid c
      → Ends Valid (serve_static env file_path mime c)
  unfolding serve_static
  serve_static-Valid env file_path none c valid = valid
  serve_static-Valid env file_path (some mime) c valid =
      serve_file-Valid env file_path (with_content_type mime new_response) (env.file file_path) c
        valid

  pub process_target-Valid :
      (env : Environment) (routes : RoutesMap) (req : Request) (target : Option Bytes)
      (c : Connection)
      → RoutesKeep routes
      → Valid c
      → Ends Valid (process_target env routes req target c)
  unfolding process_target process_request
  process_target-Valid env routes req none c keep valid = valid
  process_target-Valid env routes req (some path) c keep valid =
      let file_path : Bytes = file_path_of req in
      elim (Bool-cases ((req.method =? codes "GET") && Search.contains file_path (codes "."))) [
        | inl e ↦ rw e (serve_static-Valid env file_path (mime_type file_path) c valid)
        | inr e ↦ rw e (
            route_loop-Valid env req path (table_of (find req.method routes)) new_response c
              (find-AllKeep req.method routes keep) valid)
      ]

  after-Valid :
      (next : Connection → Connection) (s : Served)
      → ((c : Connection) → Valid c → Valid (next c))
      → Ends Valid s
      → Valid (after next s)
  unfolding after
  after-Valid next (served c) go valid = go c valid
  after-Valid next (threw c) go valid = valid

  -- If every stored handler keeps the property, so does a whole connection, whatever its requests and however it
  -- ends, an exception or a failed write included.
  pub process_session-Valid :
      (env : Environment) (routes : RoutesMap) (requests : List Request) (c : Connection)
      → RoutesKeep routes
      → Valid c
      → Valid (process_session env routes requests c)
  unfolding process_session
  process_session-Valid env routes [] c keep valid = valid
  process_session-Valid env routes (req ∷ requests) c keep valid =
      after-Valid (process_session env routes requests) _
        (λ c. process_session-Valid env routes requests c keep)
        (process_target-Valid env routes req (env.url_path req.target) c keep valid)
