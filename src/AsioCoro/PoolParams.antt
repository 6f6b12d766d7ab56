-- ===== src/AsioCoro/PoolParams.antt =====
-- PoolParams of deprecated/asio_coro_util.hpp, and ConnectionConfig of deprecated/musql_connection_config.hpp.
use fast_db.Prelude.{ℕ, ◌*◌, Bool, true, List, [], ◌∷◌, Bytes, codes}

pub data SslMode : Type 0 where
  disable enable require : SslMode

-- Times in seconds.
pub record OptionParams : Type 0 where
  pub host : Bytes
  pub port : ℕ
  pub username : Bytes
  pub password : Bytes
  pub database : Bytes
  pub ssl : SslMode
  pub multi_queries : Bool
  pub initial_size : ℕ
  pub max_size : ℕ
  pub connect_timeout : ℕ
  pub retry_interval : ℕ
  pub ping_interval : ℕ
  pub ping_timeout : ℕ
  pub thread_safe : Bool

abbrev pub default_options : OptionParams
default_options = record {
  host = codes "localhost";
  port = 3306;
  username = [];
  password = [];
  database = [];
  ssl = disable;
  multi_queries = true;
  initial_size = 1;
  max_size = 5;
  connect_timeout = 20;
  retry_interval = 30;
  ping_interval = 60 * 60;
  ping_timeout = 10;
  thread_safe = true;
}

-- `mysql::pool_params`, of the fields that are set.
pub record MysqlPoolParams : Type 0 where
  pub server_host : Bytes
  pub server_port : ℕ
  pub username : Bytes
  pub password : Bytes
  pub database : Bytes
  pub ssl : SslMode
  pub multi_queries : Bool
  pub initial_size : ℕ
  pub max_size : ℕ
  pub connect_timeout : ℕ
  pub retry_interval : ℕ
  pub ping_interval : ℕ
  pub ping_timeout : ℕ
  pub thread_safe : Bool

unfoldable pub create_mysql_option : OptionParams → MysqlPoolParams
create_mysql_option params = record {
  server_host = params.host;
  server_port = params.port;
  username = params.username;
  password = params.password;
  database = params.database;
  ssl = params.ssl;
  multi_queries = params.multi_queries;
  initial_size = params.initial_size;
  max_size = params.max_size;
  connect_timeout = params.connect_timeout;
  retry_interval = params.retry_interval;
  ping_interval = params.ping_interval;
  ping_timeout = params.ping_timeout;
  thread_safe = params.thread_safe;
}

-- What happens to a pool.
pub data PoolEvent : Type 0 where
  constructed : MysqlPoolParams → PoolEvent
  destroyed : PoolEvent

-- The pool is a local variable, and is destroyed when the function returns.
unfoldable pub create_pool : OptionParams → List PoolEvent
unfolding create_mysql_option
create_pool params = constructed (create_mysql_option params) ∷ (destroyed ∷ [])

pub record ConnectionConfig : Type 0 where
  pub host : Bytes
  pub port : ℕ
  pub user : Bytes
  pub password : Bytes
  pub database : Bytes
  pub pool_size : ℕ
