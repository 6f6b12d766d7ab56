-- ===== src/Tests/StringRuns.antt =====
-- The theorems on src/common/string_util.cppm at concrete texts.
use fast_db.Prelude.{
  ℕ, ◌+◌, true, false, [], ◌∷◌, ◌++◌, Bytes, codes, All, length, ◌≡◌, ◌↔◌, ◌⊎◌, arith,
}
use fast_db.StringUtil.Search.{ends_with}
use fast_db.StringUtil.Search.Ends.{ends_with_iff}
use fast_db.StringUtil.Trimming.{is_in, trim}
use fast_db.StringUtil.Trimming.Ends.{trim_lem}
use fast_db.StringUtil.Tokens.{split, c_string}
use fast_db.StringUtil.Tokens.Pieces.{pieces, split-pieces}

ends_with_iff_example : (ends_with (codes "db") (codes "abc") ≡ true) ↔ (
    ((front : Bytes) × (codes "db" ≡ front ++ codes "abc"))
    ⊎ (length (codes "abc") ≡ length (codes "db") + 1))
ends_with_iff_example = ends_with_iff (codes "db") (codes "abc") (omega arith) (omega arith)

trim_lem_example :
    ((left : Bytes) × (right : Bytes) × (codes " a b "
        ≡ left ++ (trim (codes " a b ") (codes " ") ++ right))
      × All (λ c. is_in c (codes " ") ≡ true) left
      × All (λ c. is_in c (codes " ") ≡ true) right)
    × ((c : ℕ) (r : Bytes) → trim (codes " a b ") (codes " ") ≡ c ∷ r → is_in c (codes " ") ≡ false)
    × ((r : Bytes) (c : ℕ)
        → trim (codes " a b ") (codes " ") ≡ r ++ c ∷ []
        → is_in c (codes " ") ≡ false)
trim_lem_example = trim_lem (codes " ") (codes " a b ") (omega arith)

split-pieces_example :
    (split (codes ",a,,b") (b',' ∷ 0 ∷ b'a' ∷ [])).tokens
    ≡ pieces (c_string (b',' ∷ 0 ∷ b'a' ∷ [])).0 [] (c_string (codes ",a,,b")).0
split-pieces_example = split-pieces (codes ",a,,b") (b',' ∷ 0 ∷ b'a' ∷ [])
