-- ===== src/Redis/RedisKey.antt =====
-- The command builders of namespace `RedisKey` in src/redis/redis_asio.hpp.
use fast_db.Prelude.{ℤ, List, [], ◌∷◌, Bytes, codes}
use fast_db.Prelude.Decimal.{to_string}
use fast_db.Redis.Command.{plain_command}

unfoldable pub del : List Bytes → Bytes
del keys = plain_command (codes "DEL") keys

unfoldable pub exists : List Bytes → Bytes
exists keys = plain_command (codes "EXISTS") keys

unfoldable pub rename : Bytes → Bytes → Bytes
rename old_key new_key = plain_command (codes "RENAME") (old_key ∷ new_key ∷ [])

unfoldable pub renamenx : Bytes → Bytes → Bytes
renamenx old_key new_key = plain_command (codes "RENAMENX") (old_key ∷ new_key ∷ [])

unfoldable pub expire : Bytes → ℤ → Bytes
expire key seconds = plain_command (codes "EXPIRE") (key ∷ to_string seconds ∷ [])

unfoldable pub persist : Bytes → Bytes
persist key = plain_command (codes "PERSIST") (key ∷ [])
