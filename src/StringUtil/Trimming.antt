-- ===== src/StringUtil/Trimming.antt =====
-- `TrimLeft`, `TrimRight` and `Trim`, over `find_first_not_of`, `find_last_not_of` and `erase`.
pub mod Ends
use fast_db.Prelude.{
  ℕ, suc, ◌+◌, ◌%◌, ◌^◌, Bool, true, false, ◌||◌, [], ◌∷◌, Bytes, codes, Option, none, some,
  if◌then◌else◌, ◌==◌, take, drop, ◌≡◌, refl,
}
use fast_db.Prelude.Size.{position}

unfoldable pub is_in : ℕ → Bytes → Bool
is_in c [] = false
is_in c (d ∷ token) = (c == d) || is_in c token

unfoldable pub next : Option ℕ → Option ℕ
next none = none
next (some i) = some (suc i)

unfoldable pub find_first_not_of : Bytes → Bytes → Option ℕ
unfolding is_in next
find_first_not_of token [] = none
find_first_not_of token (c ∷ s) =
    let rest = find_first_not_of token s in if is_in c token then next rest else some 0

-- The last position behind which all is in the token.
unfoldable pub last_of : Option ℕ → Bool → Option ℕ
last_of (some i) skip = some (suc i)
last_of none true = none
last_of none false = some 0

unfoldable pub find_last_not_of : Bytes → Bytes → Option ℕ
unfolding is_in last_of
find_last_not_of token [] = none
find_last_not_of token (c ∷ s) = last_of (find_last_not_of token s) (is_in c token)

-- `t.erase(0, n)`
unfoldable pub erase_front : ℕ → Bytes → Bytes
erase_front n t = drop n t

-- `t.erase(n)`
unfoldable pub erase_back : ℕ → Bytes → Bytes
erase_back n t = take n t

-- `find_last_not_of(token) + 1`, in `std::size_t`
unfoldable pub behind : Option ℕ → ℕ
unfolding position
behind o = (position o + 1) % 2 ^ 64

unfoldable pub trim_left : Bytes → Bytes → Bytes
unfolding find_first_not_of position erase_front
trim_left str token = erase_front (position (find_first_not_of token str)) str

unfoldable pub trim_right : Bytes → Bytes → Bytes
unfolding find_last_not_of behind erase_back
trim_right str token = erase_back (behind (find_last_not_of token str)) str

unfoldable pub trim : Bytes → Bytes → Bytes
trim str token =
    let t = erase_front (position (find_first_not_of token str)) str in
    erase_back (behind (find_last_not_of token t)) t

trim_spaces : trim (codes "  a b ") (codes " ") ≡ codes "a b"
unfolding trim erase_front erase_back find_first_not_of find_last_not_of position behind
trim_spaces = refl
