-- ===== src/Prelude/Stoi.antt =====
-- `std::stoi` in base ten: white space, a sign, digits; what follows the digits is ignored.
use fast_db.Prelude.Tests.{leb, ◌==◌, if◌then◌else◌}
use fast_db.Prelude.Lists.{Bytes, codes}
use fast_db.Prelude.Int.{ℤ, pos, negsuc}
use fast_db.Prelude.Decimal.{is_digit, read_digits}
use Prim.Native.Nat.{ℕ, zero, suc}
use mathlib.Core.Bool.{Bool, ◌&&◌, ◌||◌}
use mathlib.Core.List.{[], ◌∷◌}
use mathlib.Core.Path.{◌≡◌, refl}

pub data Stoi : Type 0 where
  number : ℤ → Stoi
  invalid_argument out_of_range : Stoi

abbrev pub is_space : ℕ → Bool
is_space c = (c == 32) || (leb 9 c && leb c 13)

unfoldable pub skip_spaces : Bytes → Bytes
skip_spaces [] = []
skip_spaces (c ∷ s) = if is_space c then skip_spaces s else c ∷ s

-- An `int` has 32 bits.
unfoldable pub positive : ℕ → Stoi
positive n = if leb n 2147483647 then number (pos n) else out_of_range

unfoldable pub negative : ℕ → Stoi
negative zero = number (pos 0)
negative (suc n) = if leb n 2147483647 then number (negsuc n) else out_of_range

-- At least one digit must come first.
unfoldable pub digits_then : (ℕ → Stoi) → Bytes → Stoi
digits_then k [] = invalid_argument
digits_then k (c ∷ s) = if is_digit c then k (read_digits 0 (c ∷ s)).0 else invalid_argument

unfoldable pub signed : Bytes → Stoi
unfolding positive negative digits_then
signed [] = invalid_argument
signed (c ∷ s) =
    if c == b'-'
    then digits_then negative s
    else if c == b'+'
    then digits_then positive s
    else digits_then positive (c ∷ s)

unfoldable pub stoi : Bytes → Stoi
unfolding skip_spaces signed
stoi s = signed (skip_spaces s)

stoi_prefix : stoi (codes " -12x") ≡ number (negsuc 11)
unfolding stoi read_digits
stoi_prefix = refl

stoi_too_large : stoi (codes "2147483648") ≡ out_of_range
unfolding stoi read_digits
stoi_too_large = refl

stoi_no_digit : stoi (codes "ten") ≡ invalid_argument
unfolding stoi
stoi_no_digit = refl
