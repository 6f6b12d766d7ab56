-- ===== src/Redis/Grammar.antt =====
-- How a server reads the words of the commands that have structure, written from the grammar of Redis's
-- documentation and not from this program.
use fast_db.Prelude.{
  ℤ, pos, negsuc, ℕ, zero, suc, Bool, true, false, List, [], ◌∷◌, Bytes, Option, none, some,
  if◌then◌else◌, ◌=?◌, ◌==◌, ◌&&◌, ◌||◌, codes, bytes_eq, length, ◌/◌, take, drop,
}
use fast_db.Prelude.Options.{◌>>=◌}
use fast_db.Prelude.Decimal.{read_digits}
use fast_db.Redis.Command.{SetOptions, no_options, is_given}
use fast_db.Redis.Resp.{read_command}

-- A text that is a decimal number as a whole.
unfoldable pub whole : ℕ × Bytes → Option ℕ
whole (n, []) = some n
whole (n, d ∷ rest) = none

unfoldable pub read_nat : Bytes → Option ℕ
unfolding whole
read_nat [] = none
read_nat (c ∷ s) = whole (read_digits 0 (c ∷ s))

-- The negative of a number; there is no negative zero.
unfoldable pub negated : ℕ → Option ℤ
negated zero = none
negated (suc n) = some (negsuc n)

unfoldable pub read_int : Bytes → Option ℤ
unfolding read_nat negated
read_int [] = none
read_int (c ∷ s) =
    if c == b'-' then read_nat s >>= negated else read_nat (c ∷ s) >>= (λ n. some (pos n))

unfoldable pub is_positive : ℤ → Bool
is_positive (pos zero) = false
is_positive (pos (suc n)) = true
is_positive (negsuc n) = false

unfoldable pub only_positive : ℤ → Option ℤ
unfolding is_positive
only_positive z = if is_positive z then some z else none

-- A time to live is a positive number.
unfoldable pub read_time : Bytes → Option ℤ
unfolding read_int only_positive
read_time s = read_int s >>= only_positive

-- The options of `SET`, in any order.
unfoldable pub read_options : List Bytes → SetOptions → Option SetOptions
unfolding read_time
read_options [] o = some o
read_options (w ∷ []) o =
    if w =? codes "NX"
    then some (record o { nx = true })
    else if w =? codes "XX"
    then some (record o { xx = true })
    else none
read_options (w ∷ v ∷ ws) o =
    let with_nx = read_options (v ∷ ws) (record o { nx = true }) in
    let with_xx = read_options (v ∷ ws) (record o { xx = true }) in
    let with_ex = read_time v >>= (λ n. read_options ws (record o { ex = n })) in
    let with_px = read_time v >>= (λ n. read_options ws (record o { px = n })) in
    if w =? codes "NX"
    then with_nx
    else if w =? codes "XX"
    then with_xx
    else if w =? codes "EX"
    then with_ex
    else if w =? codes "PX"
    then with_px
    else none

-- `[NX | XX]` and `[EX seconds | PX milliseconds]`: one of each pair at most.
unfoldable pub one_of_each : SetOptions → Option SetOptions
one_of_each o = if (o.nx && o.xx) || (is_given o.ex && is_given o.px) then none else some o

unfoldable pub read_set : List Bytes → Option (Bytes × Bytes × SetOptions)
unfolding read_options one_of_each
read_set (w ∷ key ∷ value ∷ ws) =
    if w =? codes "SET"
    then read_options ws no_options >>= one_of_each >>= (λ o. some (key, value, o))
    else none
read_set _ = none

-- Keys and values in turn, as in `MSET` and behind the key of `HSET`.
unfoldable pub read_pairs : List Bytes → Option (List (Bytes × Bytes))
read_pairs [] = some []
read_pairs (k ∷ []) = none
read_pairs (k ∷ v ∷ ws) = read_pairs ws >>= (λ m. some ((k, v) ∷ m))

-- `LIMIT offset count`, or nothing.
unfoldable pub read_limit : List Bytes → Option (Option (ℤ × ℤ))
unfolding read_int
read_limit [] = some none
read_limit (w ∷ a ∷ b ∷ []) =
    if w =? codes "LIMIT"
    then read_int a >>= (λ offset. read_int b >>= (λ count. some (some (offset, count))))
    else none
read_limit _ = none

unfoldable pub read_scores : List Bytes → Option (Bool × Option (ℤ × ℤ))
unfolding read_limit
read_scores [] = some (false, none)
read_scores (w ∷ ws) =
    if w =? codes "WITHSCORES"
    then read_limit ws >>= (λ l. some (true, l))
    else read_limit (w ∷ ws) >>= (λ l. some (false, l))

-- `ZRANGEBYSCORE key min max [WITHSCORES] [LIMIT offset count]`, and its reverse.
unfoldable pub read_by_score :
    List Bytes → Option (Bytes × Bytes × Bytes × Bytes × Bool × Option (ℤ × ℤ))
unfolding read_scores
read_by_score (w ∷ key ∷ a ∷ b ∷ ws) = read_scores ws >>= (λ r. some (w, key, a, b, r.0, r.1))
read_by_score _ = none

-- `STREAMS` with as many ids as streams, in two halves.
unfoldable pub read_streams : List Bytes → Option (List Bytes × List Bytes)
read_streams [] = none
read_streams (w ∷ ws) =
    if w =? codes "STREAMS" then some (take (length ws / 2) ws, drop (length ws / 2) ws) else none

-- `XREAD [COUNT count] STREAMS key … id …`
unfoldable pub read_xread : List Bytes → Option (Option ℤ × List Bytes × List Bytes)
unfolding read_int read_streams
read_xread (w ∷ c ∷ n ∷ ws) =
    if w =? codes "XREAD"
    then if c =? codes "COUNT"
      then read_int n >>= (λ count. read_streams ws >>= (λ r. some (some count, r.0, r.1)))
      else read_streams (c ∷ n ∷ ws) >>= (λ r. some (none, r.0, r.1))
    else none
read_xread (w ∷ ws) =
    if w =? codes "XREAD" then read_streams ws >>= (λ r. some (none, r.0, r.1)) else none
read_xread [] = none

-- What a reading of words makes of the bytes of a command.
abbrev pub read_request {ℓ} : {A : Type ℓ} → (List Bytes → Option A) → Bytes → Option A
read_request read s = read_command s >>= (λ r. read r.0)
