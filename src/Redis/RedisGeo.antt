-- ===== src/Redis/RedisGeo.antt =====
-- The command builders of namespace `RedisGeo` in src/redis/redis_asio.hpp.
-- `D` is `double`, and `print` is `std::to_string` of it.
use fast_db.Prelude.{[], ◌∷◌, Bytes, codes}
use fast_db.Redis.Command.{plain_command}

unfoldable pub geodist : Bytes → Bytes → Bytes → Bytes → Bytes
geodist key member1 member2 unit =
    plain_command (codes "GEODIST") (key ∷ member1 ∷ member2 ∷ unit ∷ [])

module _ {D : Type 0} (print : D → Bytes) where
  unfoldable pub geoadd : Bytes → D → D → Bytes → Bytes
  geoadd key longitude latitude member =
      plain_command (codes "GEOADD") (key ∷ print longitude ∷ print latitude ∷ member ∷ [])

  unfoldable pub georadius : Bytes → D → D → D → Bytes → Bytes
  georadius key longitude latitude radius unit =
      plain_command (codes "GEORADIUS")
        (key ∷ print longitude ∷ print latitude ∷ print radius ∷ unit ∷ [])
