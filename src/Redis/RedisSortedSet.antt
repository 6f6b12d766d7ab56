-- ===== src/Redis/RedisSortedSet.antt =====
-- The command builders of namespace `RedisSortedSet` in src/redis/redis_asio.hpp.
-- `D` is `double`, and `print` is `std::to_string` of it.
use fast_db.Prelude.{ℤ, Bool, List, [], ◌∷◌, ◌++◌, ◌&&◌, Bytes, codes, if◌then◌else◌}
use fast_db.Prelude.Decimal.{to_string}
use fast_db.Redis.Command.{is_given, plain_command}

-- The word that asks for scores.
unfoldable pub scores_word : Bool → List Bytes
scores_word with_scores = if with_scores then codes "WITHSCORES" ∷ [] else []

-- `LIMIT` is sent only if both of its numbers are given.
unfoldable pub limit_words : ℤ → ℤ → List Bytes
limit_words offset count =
    if is_given offset && is_given count
    then codes "LIMIT" ∷ to_string offset ∷ to_string count ∷ []
    else []

unfoldable pub zrange : Bytes → ℤ → ℤ → Bool → Bytes
zrange key start stop with_scores =
    plain_command (codes "ZRANGE")
      ((key ∷ to_string start ∷ to_string stop ∷ []) ++ scores_word with_scores)

unfoldable pub zrevrange : Bytes → ℤ → ℤ → Bool → Bytes
zrevrange key start stop with_scores =
    plain_command (codes "ZREVRANGE")
      ((key ∷ to_string start ∷ to_string stop ∷ []) ++ scores_word with_scores)

unfoldable pub zcard : Bytes → Bytes
zcard key = plain_command (codes "ZCARD") (key ∷ [])

unfoldable pub zscore : Bytes → Bytes → Bytes
zscore key member = plain_command (codes "ZSCORE") (key ∷ member ∷ [])

unfoldable pub zrem : Bytes → List Bytes → Bytes
zrem key members = plain_command (codes "ZREM") (key ∷ members)

unfoldable pub zrangebyscore : Bytes → Bytes → Bytes → Bool → ℤ → ℤ → Bytes
zrangebyscore key min max with_scores offset count =
    plain_command (codes "ZRANGEBYSCORE")
      ((key ∷ min ∷ max ∷ []) ++ (scores_word with_scores ++ limit_words offset count))

unfoldable pub zrevrangebyscore : Bytes → Bytes → Bytes → Bool → ℤ → ℤ → Bytes
zrevrangebyscore key max min with_scores offset count =
    plain_command (codes "ZREVRANGEBYSCORE")
      ((key ∷ max ∷ min ∷ []) ++ (scores_word with_scores ++ limit_words offset count))

unfoldable pub zcount : Bytes → Bytes → Bytes → Bytes
zcount key min max = plain_command (codes "ZCOUNT") (key ∷ min ∷ max ∷ [])

module _ {D : Type 0} (print : D → Bytes) where
  -- The loop over the map from members to scores: score, member, score, ...
  unfoldable pub flatten_scores : List (Bytes × D) → List Bytes
  flatten_scores [] = []
  flatten_scores ((member, score) ∷ m) = print score ∷ member ∷ flatten_scores m

  unfoldable pub zadd : Bytes → List (Bytes × D) → Bytes
  zadd key score_member_map = plain_command (codes "ZADD") (key ∷ flatten_scores score_member_map)
