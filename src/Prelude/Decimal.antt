-- ===== src/Prelude/Decimal.antt =====
-- `std::to_string` of an integer, and reading decimals back.
use Prim.Native.Nat.{ℕ, zero, suc, ◌+◌, ◌-◌, ◌*◌, ◌/◌, ◌%◌, ◌≤◌, ◌<◌}
use mathlib.Core.Path.{◌≡◌, refl}
use mathlib.Core.Logic.{inl, inr, ◌≢◌}
use mathlib.Core.Bool.{Bool, true, false, ◌&&◌}
use mathlib.Core.List.{[], ◌∷◌, ◌++◌}
use native.Mathlib.Omega.{arith}
use fast_db.Prelude.Tests.{ltb, leb, if◌then◌else◌, Bool-cases}
use fast_db.Prelude.Lists.{Bytes, All, codes}
use fast_db.Prelude.Int.{ℤ, pos, negsuc}

abbrev pub is_digit : ℕ → Bool
is_digit c = leb b'0' c && leb c b'9'

-- The digits of `n` in front of `out`; `f ≥ n` rounds are enough.
unfoldable pub digits : ℕ → ℕ → Bytes → Bytes
digits zero n out = (b'0' + n) ∷ out
digits (suc f) n out =
    let rest = digits f (n / 10) ((b'0' + n % 10) ∷ out) in
    if ltb n 10 then (b'0' + n) ∷ out else rest

unfoldable pub to_string_nat : ℕ → Bytes
unfolding digits
to_string_nat n = digits n n []

unfoldable pub to_string : ℤ → Bytes
unfolding to_string_nat
to_string (pos n) = to_string_nat n
to_string (negsuc n) = b'-' ∷ to_string_nat (suc n)

-- The value of the digits at the front behind `acc`, and what follows them.
unfoldable pub read_digits : ℕ → Bytes → ℕ × Bytes
read_digits acc [] = (acc, [])
read_digits acc (c ∷ s) = if is_digit c then read_digits (acc * 10 + (c - b'0')) s else (acc, c ∷ s)

-- The front of a text is no digit.
abbrev pub EndsNumber : Bytes → Type 0
EndsNumber [] = Unit
EndsNumber (c ∷ s) = is_digit c ≡ false

read_digit :
    (d acc : ℕ) (s : Bytes)
    → d < 10
    → read_digits acc ((b'0' + d) ∷ s) ≡ read_digits (acc * 10 + d) s
unfolding read_digits
read_digit d acc s h = ground arith

read_digits-digits :
    (f n : ℕ) (out : Bytes) → n ≤ f → read_digits 0 (digits f n out) ≡ read_digits n out
unfolding digits
read_digits-digits zero n out h = ground (arith, read_digit n 0 out)
read_digits-digits (suc f) n out h = ground (
  arith,
  read_digit n 0 out,
  read_digit (n % 10) (n / 10) out,
  read_digits-digits f (n / 10) ((b'0' + n % 10) ∷ out),
)

read_digits_end : (n : ℕ) (s : Bytes) → EndsNumber s → read_digits n s ≡ (n, s)
unfolding read_digits
read_digits_end n [] h = refl
read_digits_end n (c ∷ s) h = rw h

digits-append : (f n : ℕ) (out s : Bytes) → digits f n (out ++ s) ≡ digits f n out ++ s
unfolding digits
digits-append zero n out s = refl
digits-append (suc f) n out s = ground (arith, digits-append f (n / 10) ((b'0' + n % 10) ∷ out) s)

-- A printed number is read back, up to a rest that does not go on with a digit.
pub read_digits-to_string_nat :
    (n : ℕ) (s : Bytes) → EndsNumber s → read_digits 0 (to_string_nat n ++ s) ≡ (n, s)
unfolding to_string_nat
read_digits-to_string_nat n s h =
    rw (← digits-append n n [] s, read_digits-digits n n s (omega arith)) (read_digits_end n s h)

digits-All :
    (f n : ℕ) (out : Bytes)
    → n ≤ f
    → All (λ c. is_digit c ≡ true) out
    → All (λ c. is_digit c ≡ true) (digits f n out)
unfolding digits
digits-All zero n out h all = ground arith
digits-All (suc f) n out h all = elim (Bool-cases (ltb n 10)) [
  | inl small ↦ rw small (ground arith, all)
  | inr big ↦ rw big (digits-All f (n / 10) _ (omega arith) (ground arith, all))
]

pub to_string_nat-All : (n : ℕ) → All (λ c. is_digit c ≡ true) (to_string_nat n)
unfolding to_string_nat
to_string_nat-All n = digits-All n n [] (omega arith) tt

digits-ne-nil : (f n : ℕ) (out : Bytes) → digits f n out ≢ []
unfolding digits
digits-ne-nil zero n out = ground arith
digits-ne-nil (suc f) n out = ground (arith, digits-ne-nil f (n / 10) ((b'0' + n % 10) ∷ out))

pub to_string_nat-ne-nil : (n : ℕ) → to_string_nat n ≢ []
unfolding to_string_nat
to_string_nat-ne-nil n = digits-ne-nil n n []

minimal_int : to_string (negsuc 2147483647) ≡ codes "-2147483648"
unfolding to_string
minimal_int = refl
