-- ===== src/Redis/RedisSet.antt =====
-- The command builders of namespace `RedisSet` in src/redis/redis_asio.hpp.
use fast_db.Prelude.{List, [], ◌∷◌, Bytes, codes}
use fast_db.Redis.Command.{plain_command}

unfoldable pub sadd : Bytes → List Bytes → Bytes
sadd key members = plain_command (codes "SADD") (key ∷ members)

unfoldable pub smembers : Bytes → Bytes
smembers key = plain_command (codes "SMEMBERS") (key ∷ [])

unfoldable pub sismember : Bytes → Bytes → Bytes
sismember key member = plain_command (codes "SISMEMBER") (key ∷ member ∷ [])

unfoldable pub srem : Bytes → List Bytes → Bytes
srem key members = plain_command (codes "SREM") (key ∷ members)

unfoldable pub sdiff : List Bytes → Bytes
sdiff keys = plain_command (codes "SDIFF") keys

unfoldable pub sinter : List Bytes → Bytes
sinter keys = plain_command (codes "SINTER") keys

unfoldable pub sunion : List Bytes → Bytes
sunion keys = plain_command (codes "SUNION") keys
