-- ===== src/Redis/RedisPubSub.antt =====
-- The command builders of namespace `RedisPubSub` in src/redis/redis_asio.hpp.
use fast_db.Prelude.{List, [], ◌∷◌, Bytes, codes}
use fast_db.Redis.Command.{plain_command}

unfoldable pub subscribe : List Bytes → Bytes
subscribe channels = plain_command (codes "SUBSCRIBE") channels

unfoldable pub unsubscribe : List Bytes → Bytes
unsubscribe channels = plain_command (codes "UNSUBSCRIBE") channels

unfoldable pub publish : Bytes → Bytes → Bytes
publish channel message = plain_command (codes "PUBLISH") (channel ∷ message ∷ [])
