-- ===== src/Redis.antt =====
-- The Redis client's command builders: src/redis/redis_asio.hpp.
pub mod Command
pub mod Resp
pub mod RoundTrip
pub mod RedisConnection
pub mod RedisString
pub mod RedisHash
pub mod RedisList
pub mod RedisSet
pub mod RedisSortedSet
pub mod RedisKey
pub mod RedisPubSub
pub mod RedisStream
pub mod RedisGeo
pub mod PingClient
pub mod Grammar
pub mod Meaning
