-- ===== src/HttpServer/Routes/Placeholders.antt =====
-- What `add_route` of deprecated/HttpServer.h makes of a path that was written from literal texts and placeholders.
use fast_db.Prelude.{
  ℕ, zero, suc, ◌≤◌, false, none, some, List, [], ◌∷◌, ◌++◌, Bytes, ◌==◌, length, All, ◌≡◌, ◌≢◌,
  refl, arith,
}
use fast_db.HttpServer.Routes.{
  longer_name, until_brace, nonempty, behind, match_here, next_match, add_piece, pattern_loop,
  pattern_of,
}
use fast_db.HttpServer.Routes.Pieces.{Piece, IsName, path_of, regex_of, names_of, length-match}

-- A text without an opening brace.
abbrev pub IsLiteral : Bytes → Type 0
IsLiteral = All (λ c. (c == b'{') ≡ false)

abbrev pub IsPiece : Piece → Type 0
IsPiece (literal, name) = IsLiteral literal × IsName name

until_brace-name :
    (name more : Bytes)
    → All (λ c. (c == b'}') ≡ false) name
    → until_brace (name ++ (b'}' ∷ more)) ≡ some (name, more)
unfolding until_brace longer_name
until_brace-name [] more h = refl
until_brace-name (c ∷ name) more (e, h) = rw (e, until_brace-name name more h) refl

nonempty-name : (name more : Bytes) → name ≢ [] → nonempty (some (name, more)) ≡ some (name, more)
unfolding nonempty
nonempty-name [] more h = absurd (h refl)
nonempty-name (c ∷ name) more h = refl

next_match-piece :
    (literal name more : Bytes)
    → IsLiteral literal
    → IsName name
    → next_match (literal ++ (b'{' ∷ (name ++ (b'}' ∷ more)))) ≡ some (literal, name, more)
unfolding next_match behind match_here
next_match-piece [] name more h (full, closed) =
    rw (until_brace-name name more closed, nonempty-name name more full) refl
next_match-piece (c ∷ literal) name more (e, h) named =
    rw (e, next_match-piece literal name more h named) refl

next_match-literal : (tail : Bytes) → IsLiteral tail → next_match tail ≡ none
unfolding next_match behind
next_match-literal [] h = refl
next_match-literal (c ∷ tail) (e, h) = rw (e, next_match-literal tail h) refl

pattern_loop-path_of :
    (replace_dots : Bytes → Bytes) (fuel : ℕ) (pieces : List Piece) (tail : Bytes)
    → All IsPiece pieces
    → IsLiteral tail
    → length (path_of pieces tail) ≤ fuel
    → pattern_loop replace_dots fuel (path_of pieces tail)
      ≡ (regex_of replace_dots pieces tail, names_of pieces)
unfolding pattern_loop path_of regex_of names_of add_piece
pattern_loop-path_of replace_dots zero [] tail h last fits = refl
pattern_loop-path_of replace_dots (suc fuel) [] tail h last fits =
    rw (next_match-literal tail last, pattern_loop) refl
pattern_loop-path_of replace_dots zero ((literal, name) ∷ pieces) tail h last fits =
    absurd (omega (arith, length-match literal name (path_of pieces tail)))
pattern_loop-path_of replace_dots (suc fuel) ((literal, name) ∷ pieces) tail ((l, n), h) last fits =
    let shorter = length-match literal name (path_of pieces tail) in
    let rest =
      pattern_loop-path_of replace_dots fuel pieces tail h last (omega (arith, shorter, fits)) in
    rw (next_match-piece literal name (path_of pieces tail) l n, pattern_loop)
      (rw (rest, add_piece) refl)

-- Let a path be written from pieces, each a literal text without an opening brace and a placeholder `{name}` behind it, with
-- a name that is not empty and has no closing brace, and a tail without an opening brace. The loop of `add_route` gives back
-- what it was written from: its expression is the literal texts and the tail as the replacement of dots leaves them, with
-- one group in the place of each placeholder, and its names are all the placeholders' names, in order.
pub pattern_of-path_of :
    (replace_dots : Bytes → Bytes) (pieces : List Piece) (tail : Bytes)
    → All IsPiece pieces
    → IsLiteral tail
    → pattern_of replace_dots (path_of pieces tail)
      ≡ (regex_of replace_dots pieces tail, names_of pieces)
unfolding pattern_of
pattern_of-path_of replace_dots pieces tail h last =
    pattern_loop-path_of replace_dots (length (path_of pieces tail)) pieces tail h last
      (omega arith)
