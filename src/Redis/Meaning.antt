-- ===== src/Redis/Meaning.antt =====
-- The builders whose commands have structure say to a server what their arguments say.
use fast_db.Prelude.{
  ℤ, pos, negsuc, ℕ, suc, ◌/◌, Bool, true, false, List, [], ◌∷◌, ◌++◌, Bytes, Option, none, some,
  if◌then◌else◌, codes, ◌&&◌, ◌||◌, not, ◌≡◌, ◌≢◌, refl, arith, All, append-nil, length,
  length-append, take-append, drop-append, Bool-cases, inl, inr, drop, ◌∙◌,
}
use fast_db.Prelude.Options.{◌>>=◌}
use fast_db.Prelude.Decimal.{
  to_string_nat, to_string_nat-ne-nil, to_string, read_digits, read_digits-to_string_nat,
  to_string_nat-All, is_digit,
}
use fast_db.Prelude.{bytes_beq}
use fast_db.Redis.Command.{
  SetOptions, no_options, is_given, push_options, generate_command, plain_command,
}
use fast_db.Redis.RoundTrip.{read_command-generate_command}
use fast_db.Redis.Grammar.{
  read_nat, read_int, is_positive, only_positive, read_time, one_of_each, read_set, read_pairs,
  read_by_score, read_scores, read_streams, read_xread, read_request,
}
use fast_db.Redis.RedisString
use fast_db.Redis.RedisHash
use fast_db.Redis.RedisSortedSet
use fast_db.Redis.RedisStream

read_digits_whole : (n : ℕ) → read_digits 0 (to_string_nat n) ≡ (n, [])
read_digits_whole n = rw (append-nil (to_string_nat n)) at (read_digits-to_string_nat n [] tt)

read_nat-digits : (s : Bytes) (n : ℕ) → read_digits 0 s ≡ (n, []) → s ≢ [] → read_nat s ≡ some n
unfolding read_nat
read_nat-digits [] n h full = absurd (full refl)
read_nat-digits (c ∷ s) n h full = rw h

read_nat-to_string_nat : (n : ℕ) → read_nat (to_string_nat n) ≡ some n
read_nat-to_string_nat n = read_nat-digits _ n (read_digits_whole n) (to_string_nat-ne-nil n)

read_int_pos :
    (s : Bytes) (n : ℕ)
    → All (λ c. is_digit c ≡ true) s
    → read_nat s ≡ some n
    → read_int s ≡ some (pos n)
unfolding read_int
read_int_pos [] n all h = ground arith
read_int_pos (c ∷ s) n (d, all) h = ground arith

pub read_int-to_string : (z : ℤ) → read_int (to_string z) ≡ some z
unfolding to_string
read_int-to_string (pos n) = read_int_pos _ n (to_string_nat-All n) (read_nat-to_string_nat n)
read_int-to_string (negsuc n) = unfold read_int in rw (read_nat-to_string_nat (suc n))

given_or_default : (z : ℤ) → is_given z ≡ false → z ≡ negsuc 0
given_or_default z h = ground arith

read_time-to_string : (z : ℤ) → read_time (to_string z) ≡ only_positive z
unfolding read_time
read_time-to_string z = rw (read_int-to_string z)

-- A time that is left out, or that is positive.
abbrev pub time_allowed : ℤ → Bool
time_allowed z = not (is_given z) || is_positive z

-- What the grammar of `SET` allows.
abbrev pub options_allowed : SetOptions → Bool
options_allowed o =
    not (o.nx && o.xx)
    && (not (is_given o.ex && is_given o.px) && (time_allowed o.ex && time_allowed o.px))

read_options-push_options :
    (o : SetOptions) (key value : Bytes)
    → read_set (push_options o (codes "SET" ∷ key ∷ value ∷ []))
      ≡ (if options_allowed o then some (key, value, o) else none)
unfolding push_options read_set bytes_beq one_of_each only_positive
read_options-push_options o key value = ground (
  arith,
  read_time-to_string o.ex,
  read_time-to_string o.px,
  given_or_default o.ex,
  given_or_default o.px,
)

module _ {ℓ} {A : Type ℓ} (read : List Bytes → Option A) (command : Bytes)
    (parts : List Bytes) where
  read_request-generate_command :
      (o : SetOptions)
      → read_request read (generate_command command parts o)
        ≡ read (push_options o (command ∷ parts))
  read_request-generate_command o = rw (
      rw (append-nil (generate_command command parts o)) at
        (read_command-generate_command command parts o []))

  read_request-plain_command :
      read_request read (plain_command command parts) ≡ read (command ∷ parts)
  unfolding plain_command
  read_request-plain_command = unfold push_options in read_request-generate_command no_options

-- A server that keeps to the documented grammar, `SET key value [NX | XX] [EX seconds | PX milliseconds]` with positive times,
-- reads `SET` with exactly the key, the value and the options that it was built from, if they are not both NX and XX, nor
-- both EX and PX, and each given time is positive. The builder does not look at that: with any other options it writes a
-- command that the server refuses.
pub set_meaning :
    (key value : Bytes) (options : SetOptions)
    → read_request read_set (RedisString.set key value options)
      ≡ (if options_allowed options then some (key, value, options) else none)
unfolding RedisString.set
set_meaning key value o =
    read_request-generate_command read_set (codes "SET") (key ∷ value ∷ []) o
    ∙ read_options-push_options o key value

-- The words behind the first `n`.
abbrev pub behind : ℕ → List Bytes → Option (List (Bytes × Bytes))
behind n ws = read_pairs (drop n ws)

read_scores_lem :
    (scores : Bool) (offset count : ℤ)
    → read_scores (RedisSortedSet.scores_word scores ++ RedisSortedSet.limit_words offset count)
      ≡ some (scores, (if is_given offset && is_given count then some (offset, count) else none))
unfolding read_scores RedisSortedSet.scores_word RedisSortedSet.limit_words bytes_beq
read_scores_lem scores offset count =
    ground (arith, read_int-to_string offset, read_int-to_string count)

-- A server reads from `ZRANGEBYSCORE` and `ZREVRANGEBYSCORE` the key, the two bounds in the order in which each
-- command wants them and the request for scores; it reads a limit if the offset and the count are both given,
-- and none otherwise.
pub by_score_meaning :
    (key low high : Bytes) (scores : Bool) (offset count : ℤ)
    → let limit : Option (ℤ × ℤ) =
        (if is_given offset && is_given count then some (offset, count) else none) in
      (read_request read_by_score (RedisSortedSet.zrangebyscore key low high scores offset count)
        ≡ some (codes "ZRANGEBYSCORE", key, low, high, scores, limit))
      × (read_request read_by_score
            (RedisSortedSet.zrevrangebyscore key high low scores offset count)
          ≡ some (codes "ZREVRANGEBYSCORE", key, high, low, scores, limit))
unfolding RedisSortedSet.zrangebyscore RedisSortedSet.zrevrangebyscore read_by_score
by_score_meaning key low high scores offset count = (
  rw (read_request-plain_command, read_by_score, read_scores_lem scores offset count),
  rw (read_request-plain_command, read_by_score, read_scores_lem scores offset count),
)

read_streams_lem :
    (streams ids : List Bytes)
    → length streams ≡ length ids
    → read_streams (codes "STREAMS" ∷ (streams ++ ids)) ≡ some (streams, ids)
unfolding read_streams bytes_beq
read_streams_lem streams ids same =
    let half : length (streams ++ ids) / 2 ≡ length streams =
      omega (arith, length-append streams ids) in
    rw (half, take-append, drop-append)

read_xread_plain :
    (ws : List Bytes)
    → read_xread (codes "XREAD" ∷ codes "STREAMS" ∷ ws)
      ≡ (read_streams (codes "STREAMS" ∷ ws) >>= (λ r. some (none, r.0, r.1)))
unfolding read_xread bytes_beq
read_xread_plain [] = refl
read_xread_plain (w ∷ ws) = refl

read_xread_count :
    (count : ℤ) (ws : List Bytes)
    → read_xread (codes "XREAD" ∷ codes "COUNT" ∷ to_string count ∷ ws)
      ≡ (read_streams ws >>= (λ r. some (some count, r.0, r.1)))
unfolding read_xread bytes_beq
read_xread_count count ws = rw (read_int-to_string count)

-- With as many ids as streams, a server reads from `XREAD` the streams, their ids and the count, and no count if
-- it was left at -1.
pub xread_meaning :
    (streams ids : List Bytes) (count : ℤ)
    → length streams ≡ length ids
    → read_request read_xread (RedisStream.xread streams ids count)
      ≡ some ((if is_given count then some count else none), streams, ids)
unfolding RedisStream.xread RedisStream.count_words
xread_meaning streams ids count same =
    rw (read_request-plain_command read_xread (codes "XREAD") _)
      (elim (Bool-cases (is_given count)) [
        | inl given ↦ rw (given, read_xread_count count _, read_streams_lem streams ids same)
        | inr missing ↦ rw (missing, read_xread_plain, read_streams_lem streams ids same)
      ])
