-- ===== src/Redis/RedisString.antt =====
-- The command builders of namespace `RedisString` in src/redis/redis_asio.hpp.
use fast_db.Prelude.{ℤ, List, [], ◌∷◌, Bytes, codes}
use fast_db.Prelude.Decimal.{to_string}
use fast_db.Redis.Command.{SetOptions, generate_command, plain_command}

-- The loop over a `std::map`, which hands out its entries in the order of the keys: key, value, key, ...
unfoldable pub flatten_pairs : List (Bytes × Bytes) → List Bytes
flatten_pairs [] = []
flatten_pairs ((key, value) ∷ m) = key ∷ value ∷ flatten_pairs m

unfoldable pub set : Bytes → Bytes → SetOptions → Bytes
set key value options = generate_command (codes "SET") (key ∷ value ∷ []) options

unfoldable pub get : Bytes → Bytes
get key = plain_command (codes "GET") (key ∷ [])

unfoldable pub mset : List (Bytes × Bytes) → Bytes
mset key_value_map = plain_command (codes "MSET") (flatten_pairs key_value_map)

unfoldable pub mget : List Bytes → Bytes
mget keys = plain_command (codes "MGET") keys

unfoldable pub incr : Bytes → Bytes
incr key = plain_command (codes "INCR") (key ∷ [])

unfoldable pub decr : Bytes → Bytes
decr key = plain_command (codes "DECR") (key ∷ [])

unfoldable pub incrby : Bytes → ℤ → Bytes
incrby key increment = plain_command (codes "INCRBY") (key ∷ to_string increment ∷ [])

unfoldable pub decrby : Bytes → ℤ → Bytes
decrby key decrement = plain_command (codes "DECRBY") (key ∷ to_string decrement ∷ [])

unfoldable pub append : Bytes → Bytes → Bytes
append key value = plain_command (codes "APPEND") (key ∷ value ∷ [])

unfoldable pub strlen : Bytes → Bytes
strlen key = plain_command (codes "STRLEN") (key ∷ [])
