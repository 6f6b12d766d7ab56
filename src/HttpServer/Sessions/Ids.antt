-- ===== src/HttpServer/Sessions/Ids.antt =====
-- The session ids of deprecated/HttpServer.h: texts of 32 hexadecimal digits that carry the 16 numbers drawn.
use fast_db.Prelude.{
  ℕ, zero, suc, ◌+◌, ◌-◌, ◌*◌, ◌/◌, ◌%◌, ◌<◌, List, [], ◌∷◌, Bytes, if◌then◌else◌, ltb, length, All,
  ◌≡◌, arith, refl,
}
use fast_db.SmallUtils.Uuid.{hex_digit, IsHex}
use fast_db.HttpServer.Sessions.{put_byte, put_bytes, generate_session_id}

abbrev pub IsSessionId : Bytes → Type 0
IsSessionId id = (length id ≡ 32) × All IsHex id

hex_digit-IsHex : (n : ℕ) → n < 16 → IsHex (hex_digit n)
hex_digit-IsHex n h = ground arith

put_bytes-length :
    (distrib : ℕ → ℕ) (from count : ℕ) → length (put_bytes distrib from count) ≡ 2 * count
unfolding put_bytes put_byte
put_bytes-length distrib from zero = refl
put_bytes-length distrib from (suc count) = omega (arith, put_bytes-length distrib (suc from) count)

put_bytes-All :
    (distrib : ℕ → ℕ) (from count : ℕ)
    → ((i : ℕ) → distrib i < 256)
    → All IsHex (put_bytes distrib from count)
unfolding put_bytes put_byte
put_bytes-All distrib from zero h = tt
put_bytes-All distrib from (suc count) h = (
  hex_digit-IsHex (distrib from / 16) (omega (arith, h from)),
  (hex_digit-IsHex (distrib from % 16) (omega arith), put_bytes-All distrib (suc from) count h),
)

-- If the distribution keeps to a byte, an id has 32 digits from 0 to 9 and a to f.
pub generate_session_id-IsSessionId :
    (distrib : ℕ → ℕ) → ((i : ℕ) → distrib i < 256) → IsSessionId (generate_session_id distrib)
unfolding generate_session_id
generate_session_id-IsSessionId distrib h =
    (put_bytes-length distrib 0 16, put_bytes-All distrib 0 16 h)

-- The number that a digit stands for.
unfoldable digit_value : ℕ → ℕ
digit_value c = if ltb c b'a' then c - b'0' else c - b'a' + 10

-- The numbers that two digits each stand for.
unfoldable pub read_bytes : Bytes → List ℕ
unfolding digit_value
read_bytes [] = []
read_bytes (h ∷ []) = []
read_bytes (h ∷ (l ∷ s)) = (digit_value h * 16 + digit_value l) ∷ read_bytes s

-- The results of the calls of a distribution, in order.
unfoldable pub drawn : (ℕ → ℕ) → ℕ → ℕ → List ℕ
drawn distrib from zero = []
drawn distrib from (suc count) = distrib from ∷ drawn distrib (suc from) count

digit_value-hex_digit : (n : ℕ) → n < 16 → digit_value (hex_digit n) ≡ n
unfolding digit_value
digit_value-hex_digit n h = ground arith

read_bytes-put_byte : (n : ℕ) (s : Bytes) → n < 256 → read_bytes (put_byte n s) ≡ n ∷ read_bytes s
unfolding read_bytes put_byte
read_bytes-put_byte n s h =
    rw (digit_value-hex_digit (n / 16) (omega arith), digit_value-hex_digit (n % 16) (omega arith))
      (ground arith)

read_bytes-put_bytes :
    (distrib : ℕ → ℕ) (from count : ℕ)
    → ((i : ℕ) → distrib i < 256)
    → read_bytes (put_bytes distrib from count) ≡ drawn distrib from count
unfolding put_bytes drawn
read_bytes-put_bytes distrib from zero h = (unfold read_bytes in refl)
read_bytes-put_bytes distrib from (suc count) h =
    rw
      (
        read_bytes-put_byte (distrib from) (put_bytes distrib (suc from) count) (h from),
        read_bytes-put_bytes distrib (suc from) count h,
      )
      refl

-- If the distribution keeps to a byte, the sixteen numbers drawn can be read back from the id, so that two ids are
-- different if any number is.
pub read_bytes-generate_session_id :
    (distrib : ℕ → ℕ)
    → ((i : ℕ) → distrib i < 256)
    → read_bytes (generate_session_id distrib) ≡ drawn distrib 0 16
unfolding generate_session_id
read_bytes-generate_session_id distrib h = read_bytes-put_bytes distrib 0 16 h
