-- ===== src/HttpServer/Sessions.antt =====
-- The sessions of deprecated/HttpServer.h. Each operation holds `sessions_mutex_` for its whole body and is one step; the
-- pointer that a caller gets is the key of the session that it points to.
pub mod Ids
pub mod Validity
pub mod Cookies
pub mod Expiry
use fast_db.Prelude.{
  ℕ, zero, suc, ◌+◌, ◌-◌, ◌*◌, ◌/◌, ◌%◌, bytes_eq, Bool, Option, none, some, List, [], ◌∷◌, ◌++◌,
  Bytes, codes, drop, if◌then◌else◌, ltb,
}
use fast_db.Prelude.Assoc.{find, insert}
use fast_db.StringUtil.Search
use fast_db.SmallUtils.Uuid.{hex_digit}
use fast_db.HttpServer.{
  SessionData, SessionsMap, Request, Response, with_set_cookie, State, Environment,
}

-- `ss << std::hex << std::setw(2) << std::setfill('0') << n`, of a number below 256.
unfoldable pub put_byte : ℕ → Bytes → Bytes
put_byte n out = hex_digit (n / 16) ∷ (hex_digit (n % 16) ∷ out)

unfoldable pub put_bytes : (ℕ → ℕ) → ℕ → ℕ → Bytes
unfolding put_byte
put_bytes distrib from zero = []
put_bytes distrib from (suc count) = put_byte (distrib from) (put_bytes distrib (suc from) count)

unfoldable pub generate_session_id : (ℕ → ℕ) → Bytes
generate_session_id distrib = put_bytes distrib 0 16

-- `session_timeout_`, 30 minutes.
abbrev pub session_timeout : ℕ
session_timeout = 30 * 60 * 1000000000

abbrev pub is_stale : ℕ → SessionData → Bool
is_stale now data_of = ltb (data_of.last_access_time + session_timeout) now

-- The loop in the coroutine of `cleanup_expired_sessions`, which reads the clock for each session.
unfoldable pub cleanup : (ℕ → ℕ) → ℕ → SessionsMap → SessionsMap
cleanup clock i [] = []
cleanup clock i ((key, d) ∷ m) =
    let rest = cleanup clock (suc i) m in if is_stale (clock i) d then rest else (key, d) ∷ rest

unfoldable pub count : SessionsMap → ℕ
count [] = 0
count (x ∷ m) = suc (count m)

-- The body of the coroutine that `cleanup_expired_sessions` posts, where it runs.
unfoldable pub cleanup_body : Environment → State → State
unfolding cleanup count
cleanup_body env st = record {
  sessions = cleanup env.clock st.readings st.sessions;
  generated = st.generated;
  readings = st.readings + count st.sessions;
}

-- A posted function that makes a coroutine's task and drops it: a `cobalt::task` starts only when it is awaited.
unfoldable pub dropped : (State → State) → State → State
dropped task st = st

unfoldable pub cleanup_expired_sessions : Environment → State → State
unfolding cleanup_body dropped
cleanup_expired_sessions env st = dropped (cleanup_body env) st

abbrev pub touched : ℕ → SessionData → SessionData
touched now d = record { user_id = d.user_id; last_access_time = now; database = d.database }

abbrev pub new_session_data : ℕ → SessionData
new_session_data now = record { user_id = []; last_access_time = now; database = none }

abbrev pub cookie_text : Bytes → Bytes
cookie_text id = codes "session_id=" ++ (id ++ codes "; Path=/; HttpOnly")

-- A session with its pointer, the new state and the response.
abbrev pub Found : Type 0
Found = Bytes × State × Response

unfoldable pub found : ℕ → Bytes → SessionData → State → Response → Found
found now id d st res = (
  id,
  record {
    sessions = insert id (touched now d) st.sessions;
    generated = st.generated;
    readings = suc st.readings;
  },
  res,
)

unfoldable pub created : ℕ → Bytes → State → Response → Found
created now id st res = (
  id,
  record {
    sessions = insert id (new_session_data now) st.sessions;
    generated = suc st.generated;
    readings = suc st.readings;
  },
  with_set_cookie (cookie_text id) res,
)

unfoldable pub find_or_create_session_impl : Environment → Bytes → State → Response → Found
unfolding found created generate_session_id
find_or_create_session_impl env session_id st res = elim (find session_id st.sessions) [
  | some d ↦ found (env.clock st.readings) session_id d st res
  | none ↦ created (env.clock st.readings) (generate_session_id (env.draw st.generated)) st res
]

-- What follows `session_id=` in the Cookie header.
unfoldable pub session_id_of : Option Bytes → Bytes
session_id_of none = []
session_id_of (some cookie_value) = elim (Search.find (codes "session_id=") cookie_value) [
  | none ↦ []
  | some pos ↦ drop (pos + 11) cookie_value
]

unfoldable pub get_or_create_session : Environment → Request → Response → State → Found
unfolding session_id_of find_or_create_session_impl
get_or_create_session env req res st =
    find_or_create_session_impl env (session_id_of req.cookie) st res
