-- ===== src/Prelude/Size.antt =====
-- `std::size_t` of 64 bits.
use Prim.Native.Nat.{ℕ, ◌+◌, ◌-◌, ◌^◌}
use mathlib.Core.Path.{◌≡◌}
use native.Mathlib.Omega.{arith}
use mathlib.Core.Option.{Option, none, some}
use fast_db.Prelude.Tests.{leb, if◌then◌else◌}

-- A subtraction wraps around.
unfoldable pub size_sub : ℕ → ℕ → ℕ
size_sub a b = if leb b a then a - b else a + 2 ^ 64 - b

pub size_sub-exact : (a b : ℕ) → size_sub (a + b) b ≡ a
unfolding size_sub
size_sub-exact a b = ground arith

abbrev pub npos : ℕ
npos = 2 ^ 64 - 1

-- A position, as the number that the string's `find` functions return.
unfoldable pub position : Option ℕ → ℕ
position none = npos
position (some i) = i
