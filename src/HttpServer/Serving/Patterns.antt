-- ===== src/HttpServer/Serving/Patterns.antt =====
-- What deprecated/HttpServer.h does with the regular expressions that `add_route` stores.
use fast_db.Prelude.{
  bytes_eq, ◌=?◌, Option, none, some, List, [], ◌∷◌, Bytes, ◌≡◌, refl, inl, inr, Option-cases,
  Bool-cases,
}
use fast_db.Prelude.Assoc.{Assoc, find}
use fast_db.HttpServer.{table_of, Request, Response, new_response, Environment, Route, RoutesMap}
use fast_db.HttpServer.Serving.{
  Connection, Served, served, threw, run_route, route_loop, process_request, process_target,
  process_session, after,
}

-- The tables with other expressions in their routes, and the same keys and handlers.
unfoldable pub replace_table : (Bytes → Bytes) → Assoc Bytes Route → Assoc Bytes Route
replace_table f [] = []
replace_table f ((key, route) ∷ table) =
    (key, record { regex = f key; handler = route.handler }) ∷ replace_table f table

unfoldable pub replace_regexes : (Bytes → Bytes) → RoutesMap → RoutesMap
unfolding replace_table
replace_regexes f [] = []
replace_regexes f ((method, table) ∷ routes) =
    (method, replace_table f table) ∷ replace_regexes f routes

after-cong :
    {g h : Connection → Connection} (s : Served)
    → ((c : Connection) → g c ≡ h c)
    → after g s ≡ after h s
unfolding after
after-cong (threw last) e = refl
after-cong (served c) e = e c

module _ (f : Bytes → Bytes) (env : Environment) where
  find-replace_regexes :
      (method : Bytes) (routes : RoutesMap)
      → table_of (find method (replace_regexes f routes))
        ≡ replace_table f (table_of (find method routes))
  unfolding find replace_regexes replace_table
  find-replace_regexes method [] = refl
  find-replace_regexes method ((m, table) ∷ routes) = elim (Bool-cases (m =? method)) [
    | inl e ↦ rw e refl
    | inr e ↦ rw e (find-replace_regexes method routes)
  ]

  route_loop-replace_table :
      (req : Request) (path : Bytes) (table : Assoc Bytes Route) (res : Response) (c : Connection)
      → route_loop env req path (replace_table f table) res c ≡ route_loop env req path table res c
  unfolding route_loop replace_table run_route
  route_loop-replace_table req path [] res c = refl
  route_loop-replace_table req path ((key, route) ∷ table) res c =
      elim (Bool-cases (env.compiles key)) [
        | inl e ↦ elim (Option-cases (env.regex_match key path)) [
          | inl g ↦ rw (e, g) (route_loop-replace_table req path table res c)
          | inr (groups, g) ↦
              let out = run_route route req res groups c in
              rw (e, g) (route_loop-replace_table req path table out.0 out.1)
        ]
        | inr e ↦ rw e refl
      ]

  process_request-replace_regexes :
      (routes : RoutesMap) (req : Request) (path : Bytes) (c : Connection)
      → process_request env (replace_regexes f routes) req path c
        ≡ process_request env routes req path c
  unfolding process_request
  process_request-replace_regexes routes req path c =
      rw
        (
          find-replace_regexes req.method routes,
          route_loop-replace_table req path (table_of (find req.method routes)) new_response c,
        )
        refl

  process_target-replace_regexes :
      (routes : RoutesMap) (req : Request) (target : Option Bytes) (c : Connection)
      → process_target env (replace_regexes f routes) req target c
        ≡ process_target env routes req target c
  unfolding process_target
  process_target-replace_regexes routes req none c = refl
  process_target-replace_regexes routes req (some path) c =
      process_request-replace_regexes routes req path c

  -- The expressions that `add_route` makes of the placeholders are never used: with any others in their place, a session answers
  -- every sequence of requests in the same way. The keys, which are the paths with their placeholders, decide alone.
  pub process_session-replace_regexes :
      (routes : RoutesMap) (requests : List Request) (c : Connection)
      → process_session env (replace_regexes f routes) requests c
        ≡ process_session env routes requests c
  unfolding process_session
  process_session-replace_regexes routes [] c = refl
  process_session-replace_regexes routes (req ∷ requests) c =
      rw (process_target-replace_regexes routes req (env.url_path req.target) c) (
        after-cong (process_target env routes req (env.url_path req.target) c)
          (process_session-replace_regexes routes requests))
