-- ===== src/HttpServer/Routes/Pieces.antt =====
-- What the pattern of a route of deprecated/HttpServer.h is, of a path cut into pieces.
use fast_db.Prelude.{
  ℕ, zero, suc, ◌≤◌, ◌<◌, true, false, Option, none, some, List, [], ◌∷◌, ◌++◌, Bytes, codes, ◌==◌,
  ==_iff, length, length-append, All, ◌≡◌, ◌≢◌, inl, inr, refl, arith, ap, ◌∙◌, ◌⊎◌, Bool-cases,
  Option-cases,
}
use fast_db.HttpServer.Routes.{
  longer_name, until_brace, nonempty, Match, behind, match_here, next_match, Pattern, add_piece,
  pattern_loop, pattern_of,
}

-- A literal text and the name of the placeholder behind it.
abbrev pub Piece : Type 0
Piece = Bytes × Bytes

-- A placeholder's name is not empty and holds no closing brace.
abbrev pub IsName : Bytes → Type 0
IsName name = (name ≢ []) × All (λ c. (c == b'}') ≡ false) name

unfoldable pub path_of : List Piece → Bytes → Bytes
path_of [] tail = tail
path_of ((literal, name) ∷ pieces) tail = literal ++ (b'{' ∷ (name ++ (b'}' ∷ path_of pieces tail)))

unfoldable pub regex_of : (Bytes → Bytes) → List Piece → Bytes → Bytes
regex_of replace_dots [] tail = replace_dots tail
regex_of replace_dots ((literal, name) ∷ pieces) tail =
    replace_dots literal ++ (codes "([^/]+)" ++ regex_of replace_dots pieces tail)

unfoldable pub names_of : List Piece → List Bytes
names_of [] = []
names_of ((literal, name) ∷ pieces) = name ∷ names_of pieces

longer_name-some :
    (c : ℕ) (o : Option (Bytes × Bytes)) (name more : Bytes)
    → longer_name c o ≡ some (name, more)
    → (front : Bytes) × ((o ≡ some (front, more)) × (name ≡ c ∷ front))
unfolding longer_name
longer_name-some c none name more h = cc
longer_name-some c (some (front, rest)) name more h = (front, (ground arith, ground arith))

until_brace-some :
    (s name more : Bytes)
    → until_brace s ≡ some (name, more)
    → (s ≡ name ++ (b'}' ∷ more)) × All (λ c. (c == b'}') ≡ false) name
unfolding until_brace
until_brace-some [] name more h = cc
until_brace-some (c ∷ s) name more h = elim (Bool-cases (c == b'}')) [
  | inl e ↦
      let empty : name ≡ [] = ground (arith, h, e) in
      let rest : more ≡ s = ground (arith, h, e) in
      let closing : c ≡ b'}' = (==_iff c b'}').0 e in rw (empty, rest, closing) (refl, tt)
  | inr e ↦
      let later : longer_name c (until_brace s) ≡ some (name, more) = rw e at h in
      let (front, (f, g)) = longer_name-some c (until_brace s) name more later in
      let (p, all) = until_brace-some s front more f in rw g (ap (λ (t : Bytes). c ∷ t) p, (e, all))
]

nonempty-some :
    (o : Option (Bytes × Bytes)) (name more : Bytes)
    → nonempty o ≡ some (name, more)
    → (o ≡ some (name, more)) × (name ≢ [])
unfolding nonempty
nonempty-some none name more h = cc
nonempty-some (some ([], rest)) name more h = cc
nonempty-some (some (c ∷ front, rest)) name more h =
    (h, (λ none_left. ground (arith, h, none_left)))

behind-some :
    (c : ℕ) (o : Option Match) (literal name more : Bytes)
    → behind c o ≡ some (literal, name, more)
    → (front : Bytes) × ((o ≡ some (front, name, more)) × (literal ≡ c ∷ front))
unfolding behind
behind-some c none literal name more h = cc
behind-some c (some (front, n, m)) literal name more h =
    (front, (ground (arith, h), ground (arith, h)))

behind-none : (c : ℕ) (o : Option Match) → behind c o ≡ none → o ≡ none
unfolding behind
behind-none c none h = refl
behind-none c (some (front, n, m)) h = cc

match_here-some :
    (o : Option (Bytes × Bytes)) (later : Option Match) (literal name more : Bytes)
    → match_here o later ≡ some (literal, name, more)
    → ((o ≡ some (name, more)) × (literal ≡ [])) ⊎ (later ≡ some (literal, name, more))
unfolding match_here
match_here-some none later literal name more h = inr h
match_here-some (some (n, m)) later literal name more h = inl (ground (arith, h), ground (arith, h))

-- A placeholder in a text.
abbrev pub IsMatch : Bytes → Bytes → Bytes → Bytes → Type 0
IsMatch path literal name more = (path ≡ literal ++ (b'{' ∷ (name ++ (b'}' ∷ more)))) × IsName name

IsMatch-here :
    (c : ℕ) (s literal name more : Bytes)
    → (c == b'{') ≡ true
    → nonempty (until_brace s) ≡ some (name, more)
    → literal ≡ []
    → IsMatch (c ∷ s) literal name more
IsMatch-here c s literal name more e h nothing =
    let (f, some_left) = nonempty-some (until_brace s) name more h in
    let (p, all) = until_brace-some s name more f in
    let opening : c ≡ b'{' = (==_iff c b'{').0 e in
    rw (nothing, opening) (ap (λ (t : Bytes). b'{' ∷ t) p, (some_left, all))

IsMatch-later :
    (c : ℕ) (s literal name more : Bytes)
    → ((front : Bytes) → next_match s ≡ some (front, name, more) → IsMatch s front name more)
    → behind c (next_match s) ≡ some (literal, name, more)
    → IsMatch (c ∷ s) literal name more
IsMatch-later c s literal name more known f =
    let (front, (g, k)) = behind-some c (next_match s) literal name more f in
    let (p, named) = known front g in rw k (ap (λ (t : Bytes). c ∷ t) p, named)

next_match-some :
    (path literal name more : Bytes)
    → next_match path ≡ some (literal, name, more)
    → IsMatch path literal name more
unfolding next_match
next_match-some [] literal name more h = cc
next_match-some (c ∷ s) literal name more h =
    let later = IsMatch-later c s literal name more (λ front. next_match-some s front name more) in
    elim (Bool-cases (c == b'{')) [
      | inl e ↦
          elim (match_here-some (nonempty (until_brace s)) (behind c (next_match s)) literal name
            more (rw e at h)) [
              | inl (f, nothing) ↦ IsMatch-here c s literal name more e f nothing
              | inr f ↦ later f
            ]
      | inr e ↦ later (rw e at h)
    ]

pub length-match :
    (literal name more : Bytes) → length more < length (literal ++ (b'{' ∷ (name ++ (b'}' ∷ more))))
length-match literal name more = omega (
  arith,
  length-append literal (b'{' ∷ (name ++ (b'}' ∷ more))),
  length-append name (b'}' ∷ more),
)

-- The pieces and the tail of a path, with the pattern made of them.
abbrev pub IsCut : (Bytes → Bytes) → Bytes → Pattern → Type 0
IsCut replace_dots path pattern =
    (pieces : List Piece) × (tail : Bytes) × ((path ≡ path_of pieces tail)
      × ((next_match tail ≡ none)
          × (All IsName (names_of pieces)
              × ((pattern.0 ≡ regex_of replace_dots pieces tail) × (pattern.1 ≡ names_of pieces)))))

IsCut-add_piece :
    (replace_dots : Bytes → Bytes) (path literal name more : Bytes) (pattern : Pattern)
    → IsMatch path literal name more
    → IsCut replace_dots more pattern
    → IsCut replace_dots path (add_piece (replace_dots literal) name pattern)
unfolding path_of regex_of names_of add_piece
IsCut-add_piece replace_dots path literal name more (regex, names) (p, named)
      (pieces, tail, (q, (last, (all, (r, n))))) =
    (
      (literal, name) ∷ pieces,
      tail,
      (
        p ∙ ap (λ (t : Bytes). literal ++ (b'{' ∷ (name ++ (b'}' ∷ t)))) q,
        (
          last,
          (
            (named, all),
            (
              ap (λ (t : Bytes). replace_dots literal ++ (codes "([^/]+)" ++ t)) r,
              ap (λ (t : List Bytes). name ∷ t) n,
            ),
          ),
        ),
      ),
    )

pattern_loop-IsCut :
    (replace_dots : Bytes → Bytes) (fuel : ℕ) (path : Bytes)
    → length path ≤ fuel
    → IsCut replace_dots path (pattern_loop replace_dots fuel path)
unfolding pattern_loop
pattern_loop-IsCut replace_dots zero [] h =
    (unfold path_of regex_of names_of next_match in ([], [], (refl, (refl, (tt, (refl, refl))))))
pattern_loop-IsCut replace_dots zero (c ∷ path) h = absurd (omega arith)
pattern_loop-IsCut replace_dots (suc fuel) path h = elim (Option-cases (next_match path)) [
  | inl e ↦
      rw (e, pattern_loop)
        (unfold path_of regex_of names_of in ([], path, (refl, (e, (tt, (refl, refl))))))
  | inr ((literal, name, more), e) ↦
      let found = next_match-some path literal name more e in
      let rest =
        pattern_loop-IsCut replace_dots fuel more
          (omega (arith, ap (λ (t : Bytes). length t) found.0, length-match literal name more)) in
      rw (e, pattern_loop) (IsCut-add_piece replace_dots path literal name more _ found rest)
]

-- The loop ends, and cuts the whole path: the path is pieces, each a literal text with a placeholder `{name}` behind it whose
-- name is not empty, and a tail without a placeholder. The pattern is the literal texts and the tail as the replacement of
-- dots leaves them, with a group for each placeholder, and the names are those of the placeholders, in order.
pub pattern_of-IsCut :
    (replace_dots : Bytes → Bytes) (path : Bytes)
    → IsCut replace_dots path (pattern_of replace_dots path)
unfolding pattern_of
pattern_of-IsCut replace_dots path =
    pattern_loop-IsCut replace_dots (length path) path (omega arith)
