-- ===== src/Redis/RedisList.antt =====
-- The command builders of namespace `RedisList` in src/redis/redis_asio.hpp.
use fast_db.Prelude.{ℤ, List, [], ◌∷◌, Bytes, codes}
use fast_db.Prelude.Decimal.{to_string}
use fast_db.Redis.Command.{plain_command}

unfoldable pub lpush : Bytes → List Bytes → Bytes
lpush key values = plain_command (codes "LPUSH") (key ∷ values)

unfoldable pub rpush : Bytes → List Bytes → Bytes
rpush key values = plain_command (codes "RPUSH") (key ∷ values)

unfoldable pub lrange : Bytes → ℤ → ℤ → Bytes
lrange key start stop = plain_command (codes "LRANGE") (key ∷ to_string start ∷ to_string stop ∷ [])

unfoldable pub llen : Bytes → Bytes
llen key = plain_command (codes "LLEN") (key ∷ [])

unfoldable pub lpop : Bytes → Bytes
lpop key = plain_command (codes "LPOP") (key ∷ [])

unfoldable pub rpop : Bytes → Bytes
rpop key = plain_command (codes "RPOP") (key ∷ [])
