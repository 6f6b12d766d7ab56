-- ===== src/StringUtil/Tokens.antt =====
-- `Strtok` in its two forms, and `Split` over the C library's `strtok_r`. The text from `newPos` on stands for `newPos`,
-- and a C string is a list of bytes up to its first NUL.
pub mod Strtok
pub mod Split
pub mod Pieces
use fast_db.Prelude.{
  ℕ, zero, suc, ◌+◌, Bool, true, false, not, List, [], ◌∷◌, ◌++◌, Bytes, codes, Option, none, some,
  if◌then◌else◌, ◌==◌, take, drop, length, ◌≡◌, refl,
}
use fast_db.StringUtil.Trimming.{is_in}

-- `str.find_first_of(separator, newPos)`, as an offset
unfoldable pub find_first_of : ℕ → Bytes → Option ℕ
find_first_of separator [] = none
find_first_of separator (c ∷ s) =
    let rest = find_first_of separator s in
    if c == separator then some 0 else elim rest [ none ↦ none | some i ↦ some (suc i) ]

-- `if (pos > newPos) arr.push_back(str.substr(newPos, pos - newPos))`
unfoldable pub push_part : ℕ → Bytes → List Bytes → List Bytes
push_part offset rest arr = if offset == 0 then arr else arr ++ take offset rest ∷ []

-- The loop; at the end of the text `pos` is `npos`, which is above `newPos`, and the rest is pushed.
unfoldable pub strtok_loop : ℕ → ℕ → Bytes → List Bytes → List Bytes
strtok_loop zero separator rest arr = arr
strtok_loop (suc fuel) separator rest arr = elim (find_first_of separator rest) [
  | none ↦ arr ++ rest ∷ []
  | some i ↦ strtok_loop fuel separator (drop (i + 1) rest) (push_part i rest arr)
]

-- The form that appends to `arr`.
unfoldable pub strtok_into : Bytes → ℕ → List Bytes → List Bytes
unfolding strtok_loop
strtok_into str separator arr = strtok_loop (suc (length str)) separator str arr

-- The form that returns the parts.
unfoldable pub strtok : Bytes → ℕ → List Bytes
unfolding strtok_loop
strtok str separator = strtok_loop (suc (length str)) separator str []

-- The longest front whose bytes are, or are not, in the delimiter, and the rest.
unfoldable pub span : Bool → Bytes → Bytes → Bytes × Bytes
unfolding is_in
span inside delimiter [] = ([], [])
span inside delimiter (c ∷ s) =
    let (front, rest) = span inside delimiter s in
    if (if inside then is_in c delimiter else not (is_in c delimiter))
    then (c ∷ front, rest)
    else ([], c ∷ s)

-- What one call of `strtok_r` finds: no token, the last token, or a token and what stands behind its delimiter. Each with
-- the delimiters that were skipped.
pub data Found : Type 0 where
  nothing : Bytes → Found
  last : Bytes → Bytes → Found
  more : Bytes → Bytes → Bytes → Found

unfoldable pub classify : Bytes → Bytes → Bytes → Found
classify blank [] rest = nothing blank
classify blank (c ∷ token) [] = last blank (c ∷ token)
classify blank (c ∷ token) (d ∷ rest) = more blank (c ∷ token) rest

unfoldable pub strtok_r : Bytes → Bytes → Found
unfolding span classify
strtok_r delimiter s =
    let (blank, body) = span true delimiter s in
    let (token, rest) = span false delimiter body in classify blank token rest

-- What the calls make of a C string: the tokens, and the bytes of the string afterwards. The delimiter behind a token is
-- overwritten by NUL.
pub record Cut : Type 0 where
  pub tokens : List Bytes
  pub buffer : Bytes

unfoldable pub split_loop : ℕ → Bytes → Bytes → Cut
split_loop zero delimiter s = record { tokens = []; buffer = s }
split_loop (suc fuel) delimiter s = elim (strtok_r delimiter s) [
  | nothing blank ↦ record { tokens = []; buffer = blank }
  | last blank token ↦ record { tokens = token ∷ []; buffer = blank ++ token }
  | more blank token rest ↦
      let cut = split_loop fuel delimiter rest in
      record { tokens = token ∷ cut.tokens; buffer = blank ++ (token ++ 0 ∷ cut.buffer) }
]

-- `c_str()` as the C library reads it, and the bytes that it does not see.
unfoldable pub c_string : Bytes → Bytes × Bytes
c_string [] = ([], [])
c_string (c ∷ s) =
    let (front, rest) = c_string s in if c == 0 then ([], c ∷ s) else (c ∷ front, rest)

-- `Split`, with the text that it was given as it is afterwards. The delimiter too is handed on by `c_str()`.
unfoldable pub split : Bytes → Bytes → Cut
split str delimiter =
    let (s, unseen) = c_string str in
    let cut = split_loop (suc (length s)) (c_string delimiter).0 s in
    record { tokens = cut.tokens; buffer = cut.buffer ++ unseen }

strtok_parts : strtok (codes "a,,b,") b',' ≡ codes "a" ∷ codes "b" ∷ [] ∷ []
unfolding strtok find_first_of push_part
strtok_parts = refl

split_parts :
    split (codes ",a,,b") (codes ",")
    ≡ record { tokens = codes "a" ∷ codes "b" ∷ []; buffer = b',' ∷ b'a' ∷ 0 ∷ b',' ∷ b'b' ∷ [] }
unfolding split split_loop c_string strtok_r
split_parts = refl
