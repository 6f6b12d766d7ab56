-- ===== src/Redis/RedisHash.antt =====
-- The command builders of namespace `RedisHash` in src/redis/redis_asio.hpp.
use fast_db.Prelude.{List, [], ◌∷◌, Bytes, codes}
use fast_db.Redis.RedisString.{flatten_pairs}
use fast_db.Redis.Command.{plain_command}

unfoldable pub hset : Bytes → List (Bytes × Bytes) → Bytes
hset key field_value_map = plain_command (codes "HSET") (key ∷ flatten_pairs field_value_map)

unfoldable pub hget : Bytes → Bytes → Bytes
hget key field = plain_command (codes "HGET") (key ∷ field ∷ [])

unfoldable pub hgetall : Bytes → Bytes
hgetall key = plain_command (codes "HGETALL") (key ∷ [])

unfoldable pub hdel : Bytes → List Bytes → Bytes
hdel key fields = plain_command (codes "HDEL") (key ∷ fields)

unfoldable pub hlen : Bytes → Bytes
hlen key = plain_command (codes "HLEN") (key ∷ [])

unfoldable pub hkeys : Bytes → Bytes
hkeys key = plain_command (codes "HKEYS") (key ∷ [])

unfoldable pub hvals : Bytes → Bytes
hvals key = plain_command (codes "HVALS") (key ∷ [])

unfoldable pub hmget : Bytes → List Bytes → Bytes
hmget key fields = plain_command (codes "HMGET") (key ∷ fields)
