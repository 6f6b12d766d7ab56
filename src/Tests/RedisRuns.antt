-- ===== src/Tests/RedisRuns.antt =====
-- The theorems on src/redis/redis_asio.hpp at concrete commands.
use fast_db.Prelude.{
  ℤ, pos, negsuc, true, false, [], ◌∷◌, ◌++◌, Bytes, codes, List, Option, some, ◌≡◌, refl,
}
use fast_db.Redis.Command.{SetOptions, push_options, generate_command}
use fast_db.Redis.Resp.{read_command}
use fast_db.Redis.RoundTrip.{read_command-generate_command}
use fast_db.Redis.Grammar.{read_request, is_positive, read_set, read_by_score, read_xread}
use fast_db.Redis.Meaning.{set_meaning, by_score_meaning, xread_meaning}
use fast_db.Redis.RedisString
use fast_db.Redis.RedisHash
use fast_db.Redis.RedisSortedSet
use fast_db.Redis.RedisStream

abbrev options : SetOptions
options = record { nx = true; xx = false; ex = pos 60; px = negsuc 0 }

read_command-generate_command_example :
    read_command
      (generate_command (codes "SET") (codes "k" ∷ codes "a\r\nb" ∷ []) options ++ codes "*1")
    ≡ some (push_options options (codes "SET" ∷ codes "k" ∷ codes "a\r\nb" ∷ []), codes "*1")
read_command-generate_command_example =
    read_command-generate_command (codes "SET") (codes "k" ∷ codes "a\r\nb" ∷ []) options
      (codes "*1")

set_meaning_example :
    read_request read_set (RedisString.set (codes "k") (codes "EX") options)
    ≡ some (codes "k", codes "EX", options)
unfolding is_positive
set_meaning_example = set_meaning (codes "k") (codes "EX") options

abbrev limit_given : Option (ℤ × ℤ)
limit_given = some (pos 0, pos 10)

by_score_meaning_example :
    (read_request read_by_score
        (RedisSortedSet.zrangebyscore (codes "z") (codes "-inf") (codes "5") true (pos 0) (pos 10))
      ≡ some (codes "ZRANGEBYSCORE", codes "z", codes "-inf", codes "5", true, limit_given))
    × (read_request read_by_score (
          RedisSortedSet.zrevrangebyscore
            (codes "z")
            (codes "5")
            (codes "-inf")
            true
            (pos 0)
            (pos 10))
        ≡ some (codes "ZREVRANGEBYSCORE", codes "z", codes "5", codes "-inf", true, limit_given))
by_score_meaning_example =
    by_score_meaning (codes "z") (codes "-inf") (codes "5") true (pos 0) (pos 10)

abbrev fields : List (Bytes × Bytes)
fields = (codes "f", codes "1") ∷ (codes "g", []) ∷ []

xread_meaning_example :
    read_request read_xread
      (RedisStream.xread (codes "s" ∷ codes "t" ∷ []) (codes "0" ∷ codes "5-1" ∷ []) (pos 3))
    ≡ some (some (pos 3), codes "s" ∷ codes "t" ∷ [], codes "0" ∷ codes "5-1" ∷ [])
xread_meaning_example =
    xread_meaning (codes "s" ∷ codes "t" ∷ []) (codes "0" ∷ codes "5-1" ∷ []) (pos 3) refl
