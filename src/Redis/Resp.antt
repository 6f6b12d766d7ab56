-- ===== src/Redis/Resp.antt =====
-- The Redis serialization protocol as a server reads it, written from the protocol's description and
-- not from this program: an array of bulk strings, each with its length in decimal.
use fast_db.Prelude.{
  ℕ, zero, suc, List, [], ◌∷◌, Bytes, Option, none, some, ltb, length, take, drop, ◌==◌,
  if◌then◌else◌,
}
use fast_db.Prelude.Options.{◌>>=◌}
use fast_db.Prelude.Decimal.{read_digits}

-- The rest behind the byte `b`.
unfoldable pub expect : ℕ → Bytes → Option Bytes
expect b [] = none
expect b (c ∷ s) = if c == b then some s else none

unfoldable pub read_crlf : Bytes → Option Bytes
unfolding expect
read_crlf s = expect 13 s >>= expect 10

-- A tag, a number and the end of the line.
unfoldable pub read_header : ℕ → Bytes → Option (ℕ × Bytes)
unfolding expect read_crlf
read_header tag s = do
  s₁ ← expect tag s
  let (n, s₂) = read_digits 0 s₁
  s₃ ← read_crlf s₂
  some (n, s₃)

unfoldable pub read_bulk : Bytes → Option (Bytes × Bytes)
unfolding read_header
read_bulk s = do
  (n, body) ← read_header b'$' s
  rest ← (if ltb (length body) n then none else read_crlf (drop n body))
  some (take n body, rest)

unfoldable pub read_bulks : ℕ → Bytes → Option (List Bytes × Bytes)
read_bulks zero s = some ([], s)
read_bulks (suc n) s = do (w, s₁) ← read_bulk s; (ws, s₂) ← read_bulks n s₁; some (w ∷ ws, s₂)

-- One command, as its words, and the bytes behind it.
unfoldable pub read_command : Bytes → Option (List Bytes × Bytes)
unfolding read_header read_bulks
read_command s = do (n, s₁) ← read_header b'*' s; read_bulks n s₁

-- All the commands on a connection; each takes a byte at least.
unfoldable pub read_commands : ℕ → Bytes → Option (List (List Bytes))
read_commands fuel [] = some []
read_commands zero (c ∷ s) = none
read_commands (suc fuel) (c ∷ s) = do
  (ws, rest) ← read_command (c ∷ s)
  wss ← read_commands fuel rest
  some (ws ∷ wss)
