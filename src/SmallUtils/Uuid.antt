-- ===== src/SmallUtils/Uuid.antt =====
-- `UUID::generate` of src/common/small_utils.cppm. The two distributions are parameters: the results of their calls, in
-- order.
use fast_db.Prelude.{
  ℕ, zero, suc, ◌+◌, ◌-◌, ◌≤◌, ◌<◌, Bool, true, false, [], ◌∷◌, ◌++◌, Bytes, codes, if◌then◌else◌,
  ltb, leb, ◌==◌, ◌&&◌, ◌||◌, replicate, ◌∙◌, ◌≡◌, ◌⊎◌, refl, arith,
}

-- `ss << n` with `std::hex`, of one digit.
abbrev pub hex_digit : ℕ → ℕ
hex_digit n = if ltb n 10 then b'0' + n else b'a' + (n - 10)

-- A loop of `count` calls of `dis`, whose results are those from `from` on.
unfoldable pub put_digits : (ℕ → ℕ) → ℕ → ℕ → Bytes
put_digits dis from zero = []
put_digits dis from (suc count) = hex_digit (dis from) ∷ put_digits dis (suc from) count

unfoldable pub generate : (ℕ → ℕ) → ℕ → Bytes
unfolding put_digits
generate dis dis2 =
    put_digits dis 0 8
    ++ (codes "-"
        ++ (put_digits dis 8 4
            ++ (codes "-4"
                ++ (put_digits dis 12 3
                    ++ (codes "-"
                        ++ (hex_digit dis2 ∷ put_digits dis 15 3
                            ++ (codes "-" ++ put_digits dis 18 12)))))))

-- A hexadecimal digit in lower case.
abbrev pub IsHex : ℕ → Type 0
IsHex c = ((b'0' ≤ c) × (c ≤ b'9')) ⊎ ((b'a' ≤ c) × (c ≤ b'f'))

hex_digit-IsHex : (n : ℕ) → n < 16 → IsHex (hex_digit n)
hex_digit-IsHex n h = ground arith

-- What stands for a letter of a pattern: `x` for a hexadecimal digit, `y` for one from 8 to b, any other byte for itself.
unfoldable pub fits : ℕ → ℕ → Bool
fits p c =
    let hex = (leb b'0' c && leb c b'9') || (leb b'a' c && leb c b'f') in
    if p == b'x' then hex else if p == b'y' then leb b'8' c && leb c b'b' && hex else p == c

unfoldable pub matches : Bytes → Bytes → Bool
matches [] [] = true
matches [] (c ∷ s) = false
matches (p ∷ pattern) [] = false
matches (p ∷ pattern) (c ∷ s) = fits p c && matches pattern s

matches-fitting :
    (p c : ℕ) (rest s : Bytes) → fits p c ≡ true → matches (p ∷ rest) (c ∷ s) ≡ matches rest s
unfolding matches
matches-fitting p c rest s h = rw h refl

dash : fits b'-' b'-' ≡ true
unfolding fits
dash = refl

four : fits b'4' b'4' ≡ true
unfolding fits
four = refl

matches-letter :
    (c : ℕ) (rest s : Bytes) → fits c c ≡ true → matches (c ∷ rest) (c ∷ s) ≡ matches rest s
matches-letter c = matches-fitting c c

module _ (dis : ℕ → ℕ) (bound : (i : ℕ) → dis i < 16) where
  matches-put_digits :
      (from count : ℕ) (rest s : Bytes)
      → matches (replicate count b'x' ++ rest) (put_digits dis from count ++ s) ≡ matches rest s
  unfolding matches put_digits
  matches-put_digits from zero rest s = refl
  matches-put_digits from (suc count) rest s =
      let digit : fits b'x' (hex_digit (dis from)) ≡ true =
        (unfold fits in ground (arith, bound from)) in
      rw digit (matches-put_digits (suc from) count rest s)

  matches-all : (from count : ℕ) → matches (replicate count b'x') (put_digits dis from count) ≡ true
  unfolding matches put_digits
  matches-all from zero = refl
  matches-all from (suc count) =
      let digit : fits b'x' (hex_digit (dis from)) ≡ true =
        (unfold fits in ground (arith, bound from)) in
      rw digit (matches-all (suc from) count)

  -- Whatever digits are drawn, below 16 and from 8 to 11 as the distributions promise, the text is a UUID of version 4: it
  -- fits the pattern xxxxxxxx-xxxx-4xxx-yxxx-xxxxxxxxxxxx.
  pub generate-matches :
      (dis2 : ℕ)
      → 8 ≤ dis2
      → dis2 ≤ 11
      → matches (codes "xxxxxxxx-xxxx-4xxx-yxxx-xxxxxxxxxxxx") (generate dis dis2) ≡ true
  unfolding generate
  generate-matches dis2 low high =
      let s5 : Bytes = put_digits dis 18 12 in
      let s4 : Bytes = put_digits dis 15 3 ++ (codes "-" ++ s5) in
      let s3 : Bytes = put_digits dis 12 3 ++ (codes "-" ++ (hex_digit dis2 ∷ s4)) in
      let s2 : Bytes = put_digits dis 8 4 ++ (codes "-4" ++ s3) in
      let variant : fits b'y' (hex_digit dis2) ≡ true =
        (unfold fits in ground (arith, low, high)) in
      matches-put_digits 0 8 (codes "-xxxx-4xxx-yxxx-xxxxxxxxxxxx") (codes "-" ++ s2)
      ∙ matches-letter b'-' (codes "xxxx-4xxx-yxxx-xxxxxxxxxxxx") s2 dash
      ∙ matches-put_digits 8 4 (codes "-4xxx-yxxx-xxxxxxxxxxxx") (codes "-4" ++ s3)
      ∙ matches-letter b'-' (codes "4xxx-yxxx-xxxxxxxxxxxx") (codes "4" ++ s3) dash
      ∙ matches-letter b'4' (codes "xxx-yxxx-xxxxxxxxxxxx") s3 four
      ∙ matches-put_digits 12 3 (codes "-yxxx-xxxxxxxxxxxx") (codes "-" ++ (hex_digit dis2 ∷ s4))
      ∙ matches-letter b'-' (codes "yxxx-xxxxxxxxxxxx") (hex_digit dis2 ∷ s4) dash
      ∙ matches-fitting b'y' (hex_digit dis2) (codes "xxx-xxxxxxxxxxxx") s4 variant
      ∙ matches-put_digits 15 3 (codes "-xxxxxxxxxxxx") (codes "-" ++ s5)
      ∙ matches-letter b'-' (codes "xxxxxxxxxxxx") s5 dash
      ∙ matches-all 18 12
