-- ===== src/HttpServer/Routes.antt =====
-- `add_route` of deprecated/HttpServer.h: the pattern made from a path with placeholders, and the table of routes.
-- `replace_dots` is the call of `boost::regex_replace`, of which nothing is assumed.
pub mod Pieces
pub mod Table
pub mod Placeholders
use fast_db.Prelude.{
  ℕ, zero, suc, bytes_eq, Bool, true, false, Option, none, some, List, [], ◌∷◌, ◌++◌, Bytes, codes,
  if◌then◌else◌, ◌==◌, length,
}
use fast_db.Prelude.Assoc.{Assoc, find, insert}
use fast_db.HttpServer.{table_of, Route, RoutesMap, RequestHandler}

unfoldable pub longer_name : ℕ → Option (Bytes × Bytes) → Option (Bytes × Bytes)
longer_name c none = none
longer_name c (some (name, more)) = some (c ∷ name, more)

-- What stands before the first `}` and behind it.
unfoldable pub until_brace : Bytes → Option (Bytes × Bytes)
unfolding longer_name
until_brace [] = none
until_brace (c ∷ s) =
    let rest = longer_name c (until_brace s) in if c == b'}' then some ([], s) else rest

-- A name has one byte at least.
unfoldable pub nonempty : Option (Bytes × Bytes) → Option (Bytes × Bytes)
nonempty none = none
nonempty (some ([], more)) = none
nonempty (some (c ∷ name, more)) = some (c ∷ name, more)

-- The first match of `\{([^\}]+)\}`: what stands before it, the name, and what stands behind it.
abbrev pub Match : Type 0
Match = Bytes × Bytes × Bytes

unfoldable pub behind : ℕ → Option Match → Option Match
behind c none = none
behind c (some (literal, name, more)) = some (c ∷ literal, name, more)

unfoldable pub match_here : Option (Bytes × Bytes) → Option Match → Option Match
match_here none later = later
match_here (some (name, more)) later = some ([], name, more)

unfoldable pub next_match : Bytes → Option Match
unfolding until_brace nonempty behind match_here
next_match [] = none
next_match (c ∷ s) =
    let later = behind c (next_match s) in
    if c == b'{' then match_here (nonempty (until_brace s)) later else later

-- The text of the regular expression, and the names of the placeholders.
abbrev pub Pattern : Type 0
Pattern = Bytes × List Bytes

unfoldable pub add_piece : Bytes → Bytes → Pattern → Pattern
add_piece literal name (regex_str, names) =
    (literal ++ (codes "([^/]+)" ++ regex_str), name ∷ names)

-- The loop over the matches in the path from `last_pos` on.
unfoldable pub pattern_loop : (Bytes → Bytes) → ℕ → Bytes → Pattern
unfolding next_match add_piece
pattern_loop replace_dots zero path = (replace_dots path, [])
pattern_loop replace_dots (suc fuel) path = elim (next_match path) [
  | none ↦ (replace_dots path, [])
  | some (literal, name, more) ↦
      add_piece (replace_dots literal) name (pattern_loop replace_dots fuel more)
]

unfoldable pub pattern_of : (Bytes → Bytes) → Bytes → Pattern
unfolding pattern_loop
pattern_of replace_dots path = pattern_loop replace_dots (length path) path

-- `if (regex_str.empty()) regex_str = path_with_placeholders;`
unfoldable pub or_path : Bytes → Bytes → Bytes
or_path [] path = path
or_path (c ∷ s) path = c ∷ s

-- `emplace` keeps the route that is there.
unfoldable pub emplace : Bytes → Route → Assoc Bytes Route → Assoc Bytes Route
emplace path route table = elim (find path table) [
  | none ↦ insert path route table
  | some old ↦ table
]

-- `routes_[method]` makes a table even if the expression does not compile, which throws: `false`.
unfoldable pub add_route :
    (Bytes → Bytes) → (Bytes → Bool) → Bytes → Bytes → RequestHandler → RoutesMap → RoutesMap × Bool
unfolding pattern_of or_path emplace
add_route replace_dots compiles method path handler routes =
    let table = table_of (find method routes) in
    let regex = or_path (pattern_of replace_dots path).0 path in
    let route : Route = record { regex = regex; handler = handler } in
    if compiles regex
    then (insert method (emplace path route table) routes, true)
    else (insert method table routes, false)
