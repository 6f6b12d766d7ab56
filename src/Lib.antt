-- ===== src/Lib.antt =====
-- fast_db is a small Redis-like server and client in C++20 with a library of utilities. This development models the
-- parts that carry its own logic, file by file.
--
-- Parts and how they interact:
-- - Redis (src/redis/redis_asio.hpp): `generate_command` and the builders of the namespaces RedisConnection, RedisString,
--   RedisHash, RedisList, RedisSet, RedisSortedSet, RedisKey, RedisPubSub, RedisStream and RedisGeo, each a module of that
--   name. A builder is a function from its arguments to the bytes that it returns. Resp is a reader of RESP arrays, and
--   Grammar has readers of command words; they are written from the protocol and stand for a server. PingClient is
--   `simplePingClient`, an exchange with a server that is a parameter.
-- - Values (src/db/values.h): Value and its subclasses, Slot (a map from keys to shared values, and their deadlines),
--   RespProtocol, and RedisSession, whose command table, handlers and read loop are functions on a World: the heap of values
--   and the slots that all sessions share. A handler's end is an Outcome: a reply, an exception, or an index past the words.
--   Server is RedisServer, which accepts connections and makes their sessions. Session/Contract is a store without values and
--   addresses, the contract of the commands, and Session/Refinement relates the World to it.
-- - HttpServer (deprecated/HttpServer.h): Sessions (ids, cookies, the map of sessions, and its cleaning up, a coroutine whose
--   task is dropped and so never runs), Routes (`add_route`
--   and the pattern of a path), Arguments (`convert_arg`), Handling (the handler that `add_route` stores), MimeTypes, Serving
--   (`process_session`: the requests of a connection), Accepting (the accept loop and the timer), and Server (any number
--   of connections on the same sessions). A handler is a function
--   on the State, and what the server takes from outside is an Environment. The constructor's TLS calls are in Certificates,
--   with those of src/db/server_certi.h.
-- - AsioCoro (deprecated/asio_coro_util.hpp): AsioCallbackAwaiter, the functions that wrap an operation, and PoolParams.
--   Interleaving runs the events of several coroutines. EchoClient is `start` of deprecated/async_simple_asio.cpp.
-- - Log (src/utils/log.h): `Log::init` with its C buffers, and the texts of the stack macros. Macros
--   (src/utils/macro_definition.hpp): the detection of standard, system and compiler.
-- - StringUtil (src/common/string_util.cppm): the static functions of the class, by topic: Search, Case, Trimming, Tokens
--   and Conversion; and the patterns of CheckStr.
-- - ExpiringMap (src/common/collect_expiration_utils.cppm): LockFreeMapExprise, with `insert`, `find`, `remove`, `clear`,
--   `resize`, `traverse` and one round of `expiration_task`.
-- - Mutexes (src/common/mutex_utils.cppm, src/db/async_mutex.h): ReadWriteLock, SpinLocks and Semaphore, each a step
--   relation over a list of threads, and ScopedPtr over a heap. Threads counts the threads in a phase.
-- - LockFreeList (src/common/collect_utils.cppm): insertion by compare-and-exchange as a step relation, and removal.
--   MapUtil has the lookups of the same file.
-- - LockFreeMap (src/common/collect_utils.cppm): a heap of nodes, a head and a tail for each bucket, and every operation on
--   them. Chains and Insertion are about the chains as lists, Growth and Resizing about `resize`, Contents about the values.
-- - IocContainer (src/common/ioc_container.cppm): Any, and the container of creators that holds them.
-- - SafeQueue (src/common/queue_utils.cppm), RangeUtils (src/common/range_utils.cppm: `group_by`), SmallUtils
--   (src/common/small_utils.cppm: the factory, the comparison of vectors, and the UUID in Uuid).
-- - Prelude: lists, integers, decimal text, `std::stoi`, association lists, and the arithmetic of `std::size_t`.
-- - Tests: the theorems applied to concrete inputs.
--
-- Conventions. A `std::string` is the list of its bytes. An unordered container is a list of its elements in iteration
-- order; a new element stands last. `int` arguments of the builders are integers, printed in full. The functions of
-- `double`, hashes and clocks are arguments: what they return is not modelled. `std::size_t` subtraction wraps around
-- at 2 ^ 64 where the source subtracts; the count of the semaphore wraps as well; counters that only grow by one are
-- not cut off. Allocation does not fail. Where the source reads a `string_view` of a string that is gone (`mime_type`,
-- and the path and the groups in `process_session`), the text that the view was made of is taken. Of a handler's
-- exceptions only those of type `std::exception` are modelled.
--
-- Fuel. `pattern_loop` in HttpServer.Routes gets the length of the path, and each round takes a placeholder of three
-- bytes at least. `parse_loop` gets the length of the text, and each of its rounds takes two bytes at least.
-- `strtok_loop` and `split_loop` get one more than the length, and each round takes a separator at least. The readers
-- in Redis.Resp read as many parts as the header says. The walks of LockFreeMap have their fuel as an argument, and
-- Contents gives a bound that is enough. `follow` in LockFreeList gets the number of nodes, and each step goes to an
-- older node. All other loops are structural.
--
-- Threads. Operations that hold a mutex for their whole body are one step, those on the HTTP sessions included.
-- `clear`, `traverse` and `resize` of ExpiringMap hold none and are one step too, as where no other thread runs. That
-- the last reader of ReadWriteLock may unlock a mutex that another thread locked is an ordinary step. The lock itself
-- is modelled at the level of its mutex calls.
--
-- Outside code. Sockets, files, the clock, random numbers, URLs, regular expressions, glog and the MySQL client are
-- parameters: functions or lists of what their operations return. A connection takes a number of responses that is
-- given, and fails at the next.
--
-- Not modelled: tuple_utils, the converters of `StringUtil::cast` to other types than int, bool and std::string, the
-- guards of SpinLock, object lifetimes (OnceToken, Creator, singletons), lists of includes (src/db/boost_head.h), and
-- the copies of other libraries (robin_hood, BS::thread_pool, dbg, thirdparty).
pub mod Prelude
pub mod Redis
pub mod Values
pub mod StringUtil
pub mod ExpiringMap
pub mod LockFreeMap
pub mod LockFreeList
pub mod Mutexes
pub mod SafeQueue
pub mod AsioCoro
pub mod Certificates
pub mod HttpServer
pub mod IocContainer
pub mod Log
pub mod Macros
pub mod MapUtil
pub mod RangeUtils
pub mod SmallUtils
pub mod Tests
