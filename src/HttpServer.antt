-- ===== src/HttpServer.antt =====
-- deprecated/HttpServer.h: the data of HttpServer. Files, sockets, the clock, the random numbers, URLs and regular
-- expressions are an Environment.
pub mod Sessions
pub mod Arguments
pub mod MimeTypes
pub mod Routes
pub mod Handling
pub mod Serving
pub mod Accepting
pub mod Server
use fast_db.Prelude.{ℕ, ◌*◌, Bool, Option, none, some, List, [], Bytes, ◌≡◌}
use fast_db.Prelude.Assoc.{Assoc}

-- `std::system_clock` in nanoseconds. `database` is `none` until somebody sets it.
pub record SessionData : Type 0 where
  pub user_id : Bytes
  pub last_access_time : ℕ
  pub database : Option ℕ

abbrev pub SessionsMap : Type 0
SessionsMap = Assoc Bytes SessionData

-- What the server reads of a request: the method, the target and the Cookie header.
pub record Request : Type 0 where
  pub method : Bytes
  pub target : Bytes
  pub cookie : Option Bytes

pub record Response : Type 0 where
  pub status : ℕ
  pub body : Bytes
  pub content_type : Option Bytes
  pub set_cookie : Option Bytes
  pub content_length : Option ℕ

-- `http::response<http::string_body> res;`
abbrev pub new_response : Response
new_response = record {
  status = 200;
  body = [];
  content_type = none;
  set_cookie = none;
  content_length = none;
}

abbrev pub with_result : ℕ → Bytes → Response → Response
with_result code text res = record {
  status = code;
  body = text;
  content_type = res.content_type;
  set_cookie = res.set_cookie;
  content_length = res.content_length;
}

abbrev pub with_content_type : Bytes → Response → Response
with_content_type mime res = record {
  status = res.status;
  body = res.body;
  content_type = some mime;
  set_cookie = res.set_cookie;
  content_length = res.content_length;
}

abbrev pub with_set_cookie : Bytes → Response → Response
with_set_cookie text res = record {
  status = res.status;
  body = res.body;
  content_type = res.content_type;
  set_cookie = some text;
  content_length = res.content_length;
}

-- The sessions, and how often a session id was made and the clock was read.
pub record State : Type 0 where
  pub sessions : SessionsMap
  pub generated : ℕ
  pub readings : ℕ

-- `draw k i` is the draw number `i` of the generator that makes the id number `k`, `clock` the readings of the clock in
-- order. `url_path` is the path of a target, and `none` if it is no URL; `file` the bytes of a regular file; `read_some`
-- how many bytes one read of a file returns, of those asked for. `compiles` tells whether a pattern is a regular
-- expression, and `regex_match` has the groups of a match.
pub record Environment : Type 0 where
  pub draw : ℕ → ℕ → ℕ
  pub clock : ℕ → ℕ
  pub url_path : Bytes → Option Bytes
  pub file : Bytes → Option Bytes
  pub read_some : Bytes → ℕ → ℕ
  pub compiles : Bytes → Bool
  pub regex_match : Bytes → Bytes → Option (List Bytes)

-- `RequestHandler`, which changes the response and may change the sessions.
abbrev pub RequestHandler : Type 0
RequestHandler = Request → Response → List Bytes → State → State × Response

pub record Route : Type 0 where
  pub regex : Bytes
  pub handler : RequestHandler

abbrev pub RoutesMap : Type 0
RoutesMap = Assoc Bytes (Assoc Bytes Route)

-- A method's table; `end()` has no routes.
abbrev pub table_of : Option (Assoc Bytes Route) → Assoc Bytes Route
table_of none = []
table_of (some table) = table
