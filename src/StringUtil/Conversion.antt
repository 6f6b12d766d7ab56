-- ===== src/StringUtil/Conversion.antt =====
-- The converters to `int`, `bool` and `std::string` behind `cast`. `atoi` of a number that no `int` holds is undefined.
use fast_db.Prelude.{
  ℕ, ℤ, pos, negsuc, ltb_ℤ, Bool, true, false, Bytes, codes, Option, none, some, ◌≡◌, refl, arith,
}
use fast_db.Prelude.Decimal.{to_string}
use fast_db.Prelude.Stoi.{Stoi, number, invalid_argument, out_of_range, stoi}
use fast_db.StringUtil.Tokens.{c_string}

-- Where `stoi` finds no number, `atoi` gives 0.
unfoldable pub from_stoi : Stoi → Option ℤ
from_stoi (number n) = some n
from_stoi invalid_argument = some (pos 0)
from_stoi out_of_range = none

unfoldable pub atoi : Bytes → Option ℤ
unfolding from_stoi
atoi s = from_stoi (stoi s)

-- `cast<int>` of a string
unfoldable pub cast_int : Bytes → Option ℤ
unfolding atoi
cast_int from = atoi (c_string from).0

-- `cast<bool>` of an `int`
unfoldable pub int_to_bool : ℤ → Bool
int_to_bool from = ltb_ℤ (pos 0) from

-- `cast<bool>` of a string
unfoldable pub cast_bool : Bytes → Option Bool
unfolding cast_int int_to_bool
cast_bool from = elim (cast_int from) [ none ↦ none | some n ↦ some (int_to_bool n) ]

-- `cast<std::string>` of an `int`, and of a string
unfoldable pub int_to_string : ℤ → Bytes
int_to_string from = to_string from

unfoldable pub string_to_string : Bytes → Bytes
string_to_string from = from

words_are_false : cast_bool (codes "true") ≡ some false
unfolding cast_bool stoi c_string
words_are_false = refl

negative_text : cast_int (int_to_string (negsuc 41)) ≡ some (negsuc 41)
unfolding cast_int stoi c_string int_to_string to_string fast_db.Prelude.Decimal.read_digits
negative_text = refl
