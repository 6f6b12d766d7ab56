-- ===== src/HttpServer/Routes/Table.antt =====
-- Which routes deprecated/HttpServer.h has after `add_route`.
use fast_db.Prelude.{
  bytes_eq, Bool, Option, none, some, Bytes, if◌then◌else◌, Bool-cases, Option-cases, ◌≡◌, ◌≢◌, inl,
  inr, refl, arith,
}
use fast_db.Prelude.Assoc.{Assoc, find, insert, find-insert}
use fast_db.HttpServer.{table_of, Route, RoutesMap, RequestHandler}
use fast_db.HttpServer.Routes.{pattern_of, or_path, emplace, add_route}

-- The route of a method and a path.
abbrev pub route_at : Bytes → Bytes → RoutesMap → Option Route
route_at method path routes = find path (table_of (find method routes))

emplace-kept :
    (path : Bytes) (route old : Route) (table : Assoc Bytes Route)
    → find path table ≡ some old
    → emplace path route table ≡ table
unfolding emplace
emplace-kept path route old table h = rw (h, emplace) refl

emplace-added :
    (path : Bytes) (route : Route) (table : Assoc Bytes Route)
    → find path table ≡ none
    → emplace path route table ≡ insert path route table
unfolding emplace
emplace-added path route table h = rw (h, emplace) refl

-- The route that `add_route` would add for a path.
abbrev pub new_route : (Bytes → Bytes) → Bytes → RequestHandler → Route
new_route replace_dots path handler = record {
  regex = or_path (pattern_of replace_dots path).0 path;
  handler = handler;
}

-- A method's table after a method's table was set.
find-table :
    (method m : Bytes) (table : Assoc Bytes Route) (routes : RoutesMap)
    → (find method (insert method table routes) ≡ some table)
      × (method ≢ m → find m (insert method table routes) ≡ find m routes)
find-table method m table routes = (
  ground (arith, find-insert method method table routes, bytes_eq.beq_iff method method),
  (λ other. ground (arith, find-insert method m table routes, bytes_eq.beq_iff method m)),
)

find-emplace :
    (path : Bytes) (route : Route) (table : Assoc Bytes Route)
    → ((old : Route) → find path table ≡ some old → find path (emplace path route table) ≡ some old)
      × ((find path table ≡ none → find path (emplace path route table) ≡ some route)
          × ((q : Bytes) → path ≢ q → find q (emplace path route table) ≡ find q table))
find-emplace path route table = elim (Option-cases (find path table)) [
  | inl e ↦
      rw (emplace-added path route table e, e)
        (
          (λ old h. cc),
          (
            (λ h. ground (arith, find-insert path path route table, bytes_eq.beq_iff path path)),
            (λ q other. ground (arith, find-insert path q route table, bytes_eq.beq_iff path q)),
          ),
        )
  | inr (old, e) ↦
      rw (emplace-kept path route old table e, e) ((λ old' h. h), ((λ h. cc), (λ q other. refl)))
]

-- Where a path has no route for the method and its pattern compiles, `add_route` adds the route with its handler; where it has
-- one, that one stays, and where the pattern does not compile, `add_route` throws and adds none. Every other path and every
-- other method keeps its routes in all cases.
pub add_route_lem :
    (replace_dots : Bytes → Bytes) (compiles : Bytes → Bool) (method path : Bytes)
    (handler : RequestHandler) (routes : RoutesMap)
    → let r = add_route replace_dots compiles method path handler routes in
      let new = new_route replace_dots path handler in
      (r.1 ≡ compiles new.regex)
      × ((((old : Route)
              → route_at method path routes ≡ some old
              → route_at method path r.0 ≡ some old)
            × (route_at method path routes ≡ none
                → route_at method path r.0 ≡ (if compiles new.regex then some new else none)))
          × (((q : Bytes) → path ≢ q → route_at method q r.0 ≡ route_at method q routes)
              × ((m : Bytes) → method ≢ m → find m r.0 ≡ find m routes)))
unfolding add_route
add_route_lem replace_dots compiles method path handler routes =
    let new : Route = new_route replace_dots path handler in
    let table : Assoc Bytes Route = table_of (find method routes) in
    elim (Bool-cases (compiles new.regex)) [
      | inl e ↦
          let (kept, (added, there)) = find-emplace path new table in
          let (set, _) = find-table method method (emplace path new table) routes in
          rw (e, set)
            (
              refl,
              (
                (kept, added),
                (there, (λ m. (find-table method m (emplace path new table) routes).1)),
              ),
            )
      | inr e ↦
          let (set, _) = find-table method method table routes in
          rw (e, set)
            (
              refl,
              (
                ((λ old h. h), (λ h. h)),
                ((λ q other. refl), (λ m. (find-table method m table routes).1)),
              ),
            )
    ]
