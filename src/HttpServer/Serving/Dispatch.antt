-- ===== src/HttpServer/Serving/Dispatch.antt =====
-- How deprecated/HttpServer.h finds the handlers of a request that is not GET.
use fast_db.Prelude.{
  ℕ, suc, ◌+◌, ◌<◌, ◌≤◌, bytes_eq, ◌=?◌, true, false, Option, none, some, List, [], ◌∷◌, Bytes,
  codes, length, ltb, ◌≡◌, ◌≢◌, refl, arith, inl, inr, Option-cases, All, ◌∙◌,
}
use fast_db.Prelude.Assoc.{Assoc, find}
use fast_db.HttpServer.{table_of, Request, Response, new_response, Environment, Route, RoutesMap}
use fast_db.HttpServer.Serving.{
  Connection, Served, served, write, answer, write_routed, not_found, final_response, run_route,
  route_loop, process_request,
}
use fast_db.HttpServer.Serving.Static.{answer-written}

unfoldable pub add_match : Option (List Bytes) → ℕ → ℕ
add_match none n = n
add_match (some groups) n = suc n

-- How many keys of the table match a path.
unfoldable pub matching : Environment → Bytes → Assoc Bytes Route → ℕ
unfolding add_match
matching env path [] = 0
matching env path ((key, route) ∷ routes) =
    add_match (env.regex_match key path) (matching env path routes)

-- Every key of a table is a regular expression.
abbrev pub AllCompile : Environment → Assoc Bytes Route → Type 0
AllCompile env = All (λ p. env.compiles p.0 ≡ true)

run_route-written :
    (route : Route) (req : Request) (res : Response) (groups : List Bytes) (c : Connection)
    → length c.written < c.capacity
    → let out = run_route route req res groups c in
      (length out.1.written ≡ suc (length c.written)) × (out.1.capacity ≡ c.capacity)
unfolding run_route write_routed
run_route-written route req res groups c h =
    let room : ltb (length c.written) c.capacity ≡ true = ground arith in
    rw (room, write) (refl, refl)

-- The connection after a table's routes have been tried.
abbrev pub Writes : ℕ → Connection → Served → Type 0
Writes n c r =
    (next : Connection) × ((r ≡ served next) × (length next.written ≡ n + length c.written))

route_loop-Writes :
    (env : Environment) (req : Request) (path : Bytes) (routes : Assoc Bytes Route) (res : Response)
    (c : Connection)
    → AllCompile env routes
    → suc (matching env path routes) + length c.written ≤ c.capacity
    → Writes (suc (matching env path routes)) c (route_loop env req path routes res c)
unfolding route_loop matching
route_loop-Writes env req path [] res c all h =
    (_, (answer-written (final_response res) c (omega arith), omega arith))
route_loop-Writes env req path ((key, route) ∷ routes) res c (e, all) h =
    elim (Option-cases (env.regex_match key path)) [
      | inl f ↦
          let more : matching env path ((key, route) ∷ routes) ≡ matching env path routes =
            rw (f, matching, add_match) refl in
          rw (e, f, add_match) (route_loop-Writes env req path routes res c all (rw more at h))
      | inr (groups, f) ↦
          let more : matching env path ((key, route) ∷ routes) ≡ suc (matching env path routes) =
            rw (f, matching, add_match) refl in
          let out = run_route route req res groups c in
          let (one, same) = run_route-written route req res groups c (omega (arith, more)) in
          let (next, (r, n)) =
            route_loop-Writes env req path routes out.0 out.1 all
              (omega (arith, more, one, same)) in
          rw (e, f, add_match) (next, (r, omega (arith, n, one)))
    ]

route_loop-unmatched :
    (env : Environment) (req : Request) (path : Bytes) (routes : Assoc Bytes Route) (res : Response)
    (c : Connection)
    → AllCompile env routes
    → matching env path routes ≡ 0
    → route_loop env req path routes res c ≡ answer (final_response res) c
unfolding route_loop matching
route_loop-unmatched env req path [] res c all h = refl
route_loop-unmatched env req path ((key, route) ∷ routes) res c (e, all) h =
    elim (Option-cases (env.regex_match key path)) [
      | inl f ↦
          let more : matching env path ((key, route) ∷ routes) ≡ matching env path routes =
            rw (f, matching, add_match) refl in
          rw (e, f) (route_loop-unmatched env req path routes res c all (omega (arith, more, h)))
      | inr (groups, f) ↦
          let more : matching env path ((key, route) ∷ routes) ≡ suc (matching env path routes) =
            rw (f, matching, add_match) refl in
          absurd (omega (arith, more, h))
    ]

process_request-dynamic :
    (env : Environment) (routes : RoutesMap) (req : Request) (path : Bytes) (c : Connection)
    → req.method ≢ codes "GET"
    → process_request env routes req path c
      ≡ route_loop env req path (table_of (find req.method routes)) new_response c
unfolding process_request
process_request-dynamic env routes req path c other =
    let verb : (req.method =? codes "GET") ≡ false =
      ground (arith, bytes_eq.beq_iff req.method (codes "GET"), other) in
    rw verb refl

-- A request that is not GET is answered by one response more than there are routes of its method whose keys match the
-- path, if every key compiles and the connection takes that many: each of these routes writes one, and one is written
-- after them. If no key matches, the one response is 404 and the state stays as it is.
pub process_request-responses :
    (env : Environment) (routes : RoutesMap) (req : Request) (path : Bytes) (c : Connection)
    → let table = table_of (find req.method routes) in
      req.method ≢ codes "GET"
      → AllCompile env table
      → suc (matching env path table) + length c.written ≤ c.capacity
      → Writes (suc (matching env path table)) c (process_request env routes req path c)
        × (matching env path table ≡ 0
            → process_request env routes req path c
              ≡ served (record {
                state = c.state;
                written = not_found new_response ∷ c.written;
                capacity = c.capacity;
              }))
unfolding final_response
process_request-responses env routes req path c other all room =
    let table = table_of (find req.method routes) in
    rw (process_request-dynamic env routes req path c other) (
      route_loop-Writes env req path table new_response c all room,
      (λ unmatched.
          route_loop-unmatched env req path table new_response c all unmatched
          ∙ answer-written (not_found new_response) c (omega (arith, room))),
    )
