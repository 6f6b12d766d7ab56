-- ===== src/HttpServer/Sessions/Expiry.antt =====
-- What the coroutine that `cleanup_expired_sessions` of deprecated/HttpServer.h posts would keep. Its task is dropped, so that the
-- server never runs it.
use fast_db.Prelude.{
  ℕ, suc, ◌+◌, ◌<◌, ◌≤◌, bytes_eq, ◌=?◌, true, false, none, some, [], ◌∷◌, Bytes, Bool-cases, ◌≡◌,
  inl, inr, arith, ap,
}
use fast_db.Prelude.Assoc.{find}
use fast_db.HttpServer.{SessionData, SessionsMap, State, Environment}
use fast_db.HttpServer.Sessions.{session_timeout, is_stale, cleanup, cleanup_body}
use fast_db.HttpServer.Sessions.Validity.{IsValid, cleanup-absent}

module _ (clock : ℕ → ℕ) (low high : ℕ) where
  cleanup-gone :
      (i : ℕ) (m : SessionsMap) (q : Bytes) (d : SessionData)
      → ((j : ℕ) → low ≤ clock j)
      → IsValid m
      → find q m ≡ some d
      → d.last_access_time + session_timeout < low
      → find q (cleanup clock i m) ≡ none
  unfolding cleanup find
  cleanup-gone i [] q d late valid h old = cc
  cleanup-gone i ((key, e) ∷ m) q d late (k, (once, valid)) h old = elim (Bool-cases (key =? q)) [
    | inl same ↦
        let here : e ≡ d = ground arith in
        let absent : find q m ≡ none = rw (← (bytes_eq.beq_iff key q).0 same) once in
        let stale : is_stale (clock i) e ≡ true = rw here (ground (arith, late i)) in
        rw stale (cleanup-absent clock (suc i) m q absent)
    | inr other ↦
        let rest = cleanup-gone (suc i) m q d late valid (rw other at h) old in ground (arith, rest)
  ]

  cleanup-kept :
      (i : ℕ) (m : SessionsMap) (q : Bytes) (d : SessionData)
      → ((j : ℕ) → clock j ≤ high)
      → find q m ≡ some d
      → high ≤ d.last_access_time + session_timeout
      → find q (cleanup clock i m) ≡ some d
  unfolding cleanup find
  cleanup-kept i [] q d early h young = cc
  cleanup-kept i ((key, e) ∷ m) q d early h young = elim (Bool-cases (key =? q)) [
    | inl same ↦
        let here : e ≡ d = ground arith in
        let fresh : is_stale (clock i) e ≡ false = rw here (ground (arith, early i)) in
        rw (fresh, same) (ap some here)
    | inr other ↦
        let rest = cleanup-kept (suc i) m q d early (rw other at h) young in ground (arith, rest)
  ]

-- If all readings of the clock lie from `low` to `high`, a run of the coroutine on valid sessions would remove every session whose last
-- access is more than the timeout before `low`, keep every one whose last access is at most the timeout before `high`
-- with its data, and add none.
pub cleanup_body-view :
    (env : Environment) (st : State) (low high : ℕ)
    → ((j : ℕ) → low ≤ env.clock j)
    → ((j : ℕ) → env.clock j ≤ high)
    → IsValid st.sessions
    → (q : Bytes)
    → ((d : SessionData)
        → find q st.sessions ≡ some d
        → d.last_access_time + session_timeout < low
        → find q (cleanup_body env st).sessions ≡ none)
      × (((d : SessionData)
            → find q st.sessions ≡ some d
            → high ≤ d.last_access_time + session_timeout
            → find q (cleanup_body env st).sessions ≡ some d)
          × (find q st.sessions ≡ none → find q (cleanup_body env st).sessions ≡ none))
unfolding cleanup_body
cleanup_body-view env st low high late early valid q = (
  (λ d h old. cleanup-gone env.clock low high st.readings st.sessions q d late valid h old),
  (
    (λ d h young. cleanup-kept env.clock low high st.readings st.sessions q d early h young),
    (λ h. cleanup-absent env.clock st.readings st.sessions q h),
  ),
)
