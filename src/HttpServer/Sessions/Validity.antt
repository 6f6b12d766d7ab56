-- ===== src/HttpServer/Sessions/Validity.antt =====
-- The invariant of the sessions of deprecated/HttpServer.h, and the map that they stand for.
use fast_db.Prelude.{
  ℕ, suc, ◌<◌, bytes_eq, ◌=?◌, none, some, [], ◌∷◌, Bytes, Bool-cases, Option-cases, ◌≡◌, inl, inr,
  refl, arith,
}
use fast_db.Prelude.Assoc.{find, insert, find-insert}
use fast_db.HttpServer.{SessionData, SessionsMap, Response, State, Environment}
use fast_db.HttpServer.Sessions.{
  generate_session_id, is_stale, cleanup, cleanup_body, cleanup_expired_sessions, found, created,
  find_or_create_session_impl,
}
use fast_db.HttpServer.Sessions.Ids.{IsSessionId, generate_session_id-IsSessionId}

-- Every key is a session id and stands once.
abbrev pub IsValid : SessionsMap → Type 0
IsValid [] = Unit
IsValid ((key, d) ∷ m) = IsSessionId key × ((find key m ≡ none) × IsValid m)

insert-IsValid :
    (id : Bytes) (d : SessionData) (m : SessionsMap)
    → IsSessionId id
    → IsValid m
    → IsValid (insert id d m)
unfolding insert find
insert-IsValid id d [] named valid = (named, (refl, tt))
insert-IsValid id d ((key, e) ∷ m) named (k, (once, valid)) = elim (Bool-cases (key =? id)) [
  | inl same ↦ rw same (k, (once, valid))
  | inr other ↦
      let apart : find key (insert id d m) ≡ none =
        ground (arith, find-insert id key d m, bytes_eq.beq_iff key id, bytes_eq.beq_iff id key) in
      rw other (k, (apart, insert-IsValid id d m named valid))
]

pub find-IsSessionId :
    (id : Bytes) (d : SessionData) (m : SessionsMap)
    → IsValid m
    → find id m ≡ some d
    → IsSessionId id
unfolding find
find-IsSessionId id d [] valid h = cc
find-IsSessionId id d ((key, e) ∷ m) (k, (once, valid)) h = elim (Bool-cases (key =? id)) [
  | inl same ↦ rw (← (bytes_eq.beq_iff key id).0 same) k
  | inr other ↦ find-IsSessionId id d m valid (rw other at h)
]

pub cleanup-absent :
    (clock : ℕ → ℕ) (i : ℕ) (m : SessionsMap) (q : Bytes)
    → find q m ≡ none
    → find q (cleanup clock i m) ≡ none
unfolding cleanup find
cleanup-absent clock i [] q h = h
cleanup-absent clock i ((key, e) ∷ m) q h = elim (Bool-cases (key =? q)) [
  | inl same ↦ absurd (ground arith)
  | inr other ↦ let rest = cleanup-absent clock (suc i) m q (rw other at h) in ground (arith, rest)
]

cleanup-IsValid :
    (clock : ℕ → ℕ) (i : ℕ) (m : SessionsMap) → IsValid m → IsValid (cleanup clock i m)
unfolding cleanup
cleanup-IsValid clock i [] valid = tt
cleanup-IsValid clock i ((key, e) ∷ m) (k, (once, valid)) =
    let rest = cleanup-IsValid clock (suc i) m valid in
    elim (Bool-cases (is_stale (clock i) e)) [
      | inl old ↦ rw old rest
      | inr young ↦ rw young (k, (cleanup-absent clock (suc i) m key once, rest))
    ]

-- The coroutine of the cleaning up, where it runs, leaves valid sessions valid.
pub cleanup_body-IsValid :
    (env : Environment) (st : State) → IsValid st.sessions → IsValid (cleanup_body env st).sessions
unfolding cleanup_body
cleanup_body-IsValid env st valid = cleanup-IsValid env.clock st.readings st.sessions valid

pub cleanup_expired_sessions-IsValid :
    (env : Environment) (st : State)
    → IsValid st.sessions
    → IsValid (cleanup_expired_sessions env st).sessions
unfolding cleanup_expired_sessions
cleanup_expired_sessions-IsValid env st valid = valid

pub find_or_create_session_impl-known :
    (env : Environment) (id : Bytes) (d : SessionData) (st : State) (res : Response)
    → find id st.sessions ≡ some d
    → find_or_create_session_impl env id st res ≡ found (env.clock st.readings) id d st res
unfolding find_or_create_session_impl
find_or_create_session_impl-known env id d st res h = rw (h, find_or_create_session_impl) refl

pub find_or_create_session_impl-unknown :
    (env : Environment) (id : Bytes) (st : State) (res : Response)
    → find id st.sessions ≡ none
    → find_or_create_session_impl env id st res
      ≡ created (env.clock st.readings) (generate_session_id (env.draw st.generated)) st res
unfolding find_or_create_session_impl
find_or_create_session_impl-unknown env id st res h = rw (h, find_or_create_session_impl) refl

-- If the draws keep to a byte, a request's session leaves the sessions valid: every key is an id of 32 digits and
-- stands once.
pub find_or_create_session-IsValid :
    (env : Environment) (id : Bytes) (st : State) (res : Response)
    → ((k i : ℕ) → env.draw k i < 256)
    → IsValid st.sessions
    → IsValid (find_or_create_session_impl env id st res).1.sessions
unfolding found created
find_or_create_session-IsValid env id st res draws valid =
    elim (Option-cases (find id st.sessions)) [
      | inl e ↦ rw (find_or_create_session_impl-unknown env id st res e) (
          insert-IsValid _ _ st.sessions
            (generate_session_id-IsSessionId (env.draw st.generated) (draws st.generated)) valid)
      | inr (d, e) ↦
          rw (find_or_create_session_impl-known env id d st res e)
            (insert-IsValid id _ st.sessions (find-IsSessionId id d st.sessions valid e) valid)
    ]
