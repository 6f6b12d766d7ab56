-- ===== src/Redis/RedisConnection.antt =====
-- The command builders of namespace `RedisConnection` in src/redis/redis_asio.hpp.
use fast_db.Prelude.{[], ◌∷◌, Bytes, codes}
use fast_db.Redis.Command.{plain_command}

unfoldable pub ping : Bytes
ping = plain_command (codes "PING") []

unfoldable pub auth : Bytes → Bytes
auth password = plain_command (codes "AUTH") (password ∷ [])
