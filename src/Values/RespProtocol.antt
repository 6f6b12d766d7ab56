-- ===== src/Values/RespProtocol.antt =====
-- `RespProtocol` of src/db/values.h. The loop's `pos` is kept as the text from `pos` on, so that a position found is
-- an offset into it; `std::size_t` has 64 bits.
pub mod Lines
use fast_db.Prelude.{
  ℕ, zero, suc, ◌+◌, ◌-◌, ◌^◌, List, [], ◌∷◌, ◌++◌, Bytes, codes, Option, none, some, ◌&&◌, ◌==◌,
  leb, if◌then◌else◌, take, drop, length, ◌≡◌, refl,
}
use fast_db.Prelude.Size.{size_sub}
use fast_db.Redis.Command.{crlf}
use mathlib.Core.Option

-- `data.find("\r\n", pos)`, with `npos` as `none`
unfoldable pub find_crlf : Bytes → Option ℕ
find_crlf [] = none
find_crlf (c ∷ []) = none
find_crlf (c ∷ d ∷ s) =
    let rest = find_crlf (d ∷ s) in
    if (c == 13) && (d == 10) then some 0 else elim rest [ none ↦ none | some i ↦ some (suc i) ]

-- `data.substr(pos + 1, end_pos - pos - 1)`
unfoldable pub line_at : Bytes → ℕ → Bytes
unfolding size_sub
line_at rest offset = take (size_sub offset 1) (drop 1 rest)

-- The loop. Each round takes two bytes at least.
unfoldable pub parse_loop : ℕ → Bytes → List Bytes
unfolding find_crlf line_at
parse_loop zero rest = []
parse_loop (suc fuel) rest = elim (find_crlf rest) [
  | none ↦ []
  | some offset ↦ line_at rest offset ∷ parse_loop fuel (drop (offset + 2) rest)
]

unfoldable pub parse_request : Bytes → List Bytes
unfolding parse_loop
parse_request s = parse_loop (length s) s

unfoldable pub build_response : Bytes → Bytes
build_response response = b'+' ∷ (response ++ crlf)

simple_strings : parse_request (codes "+GET\r\n+key\r\n") ≡ codes "GET" ∷ codes "key" ∷ []
unfolding parse_request
simple_strings = refl

-- An empty line makes the length wrap around, and the rest of the text is taken for the line.
empty_line : parse_request (codes "\r\n+a\r\n") ≡ codes "\n+a\r\n" ∷ codes "a" ∷ []
unfolding parse_request
empty_line = refl
