-- ===== src/AsioCoro.antt =====
-- deprecated/asio_coro_util.hpp: AsioCallbackAwaiter and the functions that wrap an operation with a callback in a coroutine,
-- the executor, and the parameters of a pool. The operations are those of Asio, Beast and MySQL, and parameters: what
-- they hand to their callbacks.
pub mod Interleaving
pub mod PoolParams
pub mod EchoClient
use fast_db.Prelude.{
  ℕ, zero, suc, Bool, true, false, Option, none, some, List, [], ◌∷◌, ◌++◌, Bytes, codes,
  if◌then◌else◌,
}
use fast_db.Prelude.Options.{◌>>=◌}

-- `mysql::connect_params`, as far as it is set.
pub record ConnectParams : Type 0 where
  pub host : Bytes
  pub port : ℕ
  pub username : Bytes
  pub password : Bytes
  pub database : Bytes

-- The port that `emplace_host_and_port` takes where it gets none.
abbrev pub default_port : ℕ
default_port = 3306

-- The operations started; sockets, connections and streams are numbers, an endpoint is a text.
pub data Operation : Type 0 where
  accept : ℕ → ℕ → Operation
  read_some : ℕ → ℕ → Operation
  read : ℕ → ℕ → Operation
  read_until : ℕ → Bytes → Operation
  write : ℕ → Bytes → Operation
  connect : ℕ → List Bytes → Operation
  mysql_connect : ℕ → ConnectParams → Operation
  execute : ℕ → Bytes → Operation
  get_connection : ℕ → Operation
  close : ℕ → Operation
  ping : ℕ → Operation
  http_read : ℕ → Operation
  handshake : ℕ → ℕ → Operation
  http_write : ℕ → Bytes → Operation

-- What an operation hands to its callback: an error code, zero for none, and a size, the rows of a result or a connection, by
-- the operation.
pub record Completion : Type 0 where
  pub ec : ℕ
  pub size : ℕ
  pub rs : Bytes
  pub pooled : ℕ

-- The type `T` of an awaiter.
pub data Value : Type 0 where
  error : ℕ → Value
  error_size : ℕ → ℕ → Value
  error_result : ℕ → Bytes → Value
  error_connection : ℕ → ℕ → Value

-- AsioCallbackAwaiter: the operation that `callback_function_` starts, what its callback passes to `set_resume_value`, and
-- `result_`.
pub record Awaiter : Type 0 where
  pub operation : Operation
  pub resume_value : Completion → Value
  pub result : Option Value

abbrev pub await_ready : Awaiter → Bool
await_ready aw = false

-- `[this](T t) { result_ = std::move(t); }`
unfoldable pub set_resume_value : Value → Awaiter → Awaiter
set_resume_value t aw = record {
  operation = aw.operation;
  resume_value = aw.resume_value;
  result = some t;
}

-- The callback before it resumes the coroutine.
unfoldable pub call_back : Completion → Awaiter → Awaiter
unfolding set_resume_value
call_back c aw = set_resume_value (aw.resume_value c) aw

abbrev pub await_resume : Awaiter → Option Value
await_resume aw = aw.result

abbrev pub awaiter : Operation → (Completion → Value) → Awaiter
awaiter operation resume_value = record {
  operation = operation;
  resume_value = resume_value;
  result = none;
}

-- The two kinds of callbacks that most operations have: `(ec)` and `(ec, size)`.
abbrev pub ec_value : Completion → Value
ec_value c = error c.ec

abbrev pub ec_size_value : Completion → Value
ec_size_value c = error_size c.ec c.size

unfoldable pub async_accept_lazy : ℕ → ℕ → Awaiter
async_accept_lazy acceptor socket = awaiter (accept acceptor socket) ec_value

unfoldable pub async_read_some_lazy : ℕ → ℕ → Awaiter
async_read_some_lazy socket buffer = awaiter (read_some socket buffer) ec_size_value

unfoldable pub async_read_lazy : ℕ → ℕ → Awaiter
async_read_lazy socket buffer = awaiter (read socket buffer) ec_size_value

unfoldable pub async_read_until_lazy : ℕ → Bytes → Awaiter
async_read_until_lazy socket delim = awaiter (read_until socket delim) ec_size_value

unfoldable pub async_write_lazy : ℕ → Bytes → Awaiter
async_write_lazy socket buffer = awaiter (write socket buffer) ec_size_value

-- `resolve` is the resolver, whose call blocks; an error of it is thrown: `none`.
unfoldable pub async_connect_lazy :
    (Bytes → Bytes → Option (List Bytes)) → ℕ → Bytes → Bytes → Option Awaiter
async_connect_lazy resolve socket host port =
    resolve host port >>= (λ endpoints. some (awaiter (connect socket endpoints) ec_value))

-- The port and the database are not used.
unfoldable pub mysql_async_connect_lazy : ℕ → Bytes → ℕ → Bytes → Bytes → Bytes → Awaiter
mysql_async_connect_lazy conn host port user_name password database =
    awaiter
      (mysql_connect conn (record {
        host = host;
        port = default_port;
        username = user_name;
        password = password;
        database = [];
      }))
      ec_value

unfoldable pub async_execute_lazy : ℕ → Bytes → Awaiter
async_execute_lazy conn stmt = awaiter (execute conn stmt) (λ c. error_result c.ec c.rs)

unfoldable pub async_get_connection_lazy : ℕ → Awaiter
async_get_connection_lazy pool = awaiter (get_connection pool) (λ c. error_connection c.ec c.pooled)

unfoldable pub async_close_lazy : ℕ → Awaiter
async_close_lazy conn = awaiter (close conn) ec_value

unfoldable pub async_ping_lazy : ℕ → Awaiter
async_ping_lazy conn = awaiter (ping conn) ec_value

unfoldable pub async_http_read_lazy : ℕ → Awaiter
async_http_read_lazy stream = awaiter (http_read stream) ec_size_value

unfoldable pub async_ssl_handshake_lazy : ℕ → ℕ → Awaiter
async_ssl_handshake_lazy stream side = awaiter (handshake stream side) ec_value

unfoldable pub async_http_write_lazy : ℕ → Bytes → Awaiter
async_http_write_lazy stream res = awaiter (http_write stream res) ec_size_value

-- `AsioExecutor::schedule`: the function joins the queue of the io_context, and the answer is always true.
unfoldable pub schedule {ℓ} : {Func : Type ℓ} → Func → List Func → List Func × Bool
schedule func io_context = (io_context ++ (func ∷ []), true)
