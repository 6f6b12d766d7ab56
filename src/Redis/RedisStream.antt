-- ===== src/Redis/RedisStream.antt =====
-- The command builders of namespace `RedisStream` in src/redis/redis_asio.hpp.
use fast_db.Prelude.{ℤ, List, [], ◌∷◌, ◌++◌, Bytes, codes, if◌then◌else◌}
use fast_db.Prelude.Decimal.{to_string}
use fast_db.Redis.Command.{is_given, plain_command}

unfoldable pub count_words : ℤ → List Bytes
count_words count = if is_given count then codes "COUNT" ∷ to_string count ∷ [] else []

unfoldable pub xadd : Bytes → Bytes → List Bytes → Bytes
xadd stream id fields_values = plain_command (codes "XADD") (stream ∷ id ∷ fields_values)

unfoldable pub xread : List Bytes → List Bytes → ℤ → Bytes
xread streams ids count =
    plain_command (codes "XREAD") (count_words count ++ (codes "STREAMS" ∷ (streams ++ ids)))

unfoldable pub xlen : Bytes → Bytes
xlen stream = plain_command (codes "XLEN") (stream ∷ [])
