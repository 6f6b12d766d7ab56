-- ===== src/HttpServer/Accepting.antt =====
-- The accept loop and the cleanup timer of deprecated/HttpServer.h. Sockets and the timer's service are parameters: the ends
-- of the operations that the server waits for, in order.
use fast_db.Prelude.{
  ℕ, suc, ◌+◌, ◌*◌, Bool, true, false, List, [], ◌∷◌, ◌++◌, if◌then◌else◌, ◌≡◌, refl, arith, ap,
}
use fast_db.HttpServer.{State, Environment}
use fast_db.HttpServer.Sessions.{cleanup_expired_sessions}
use fast_db.HttpServer.Sessions.Validity.{IsValid, cleanup_expired_sessions-IsValid}

-- The end of `async_accept`, and of the handshake behind it if there is one. With `use_op` an error is thrown, so that `ec`
-- is never set.
pub data Accepted : Type 0 where
  connection accept_failed handshake_failed : Accepted

-- Which form of `process_session` is spawned.
pub data Spawned : Type 0 where
  plain encrypted : Spawned

-- The sessions spawned until an exception leaves the loop.
unfoldable pub accept_loop : Bool → List Accepted → List Spawned
accept_loop enable_https [] = []
accept_loop enable_https (accept_failed ∷ more) = []
accept_loop true (handshake_failed ∷ more) = []
accept_loop true (connection ∷ more) = encrypted ∷ accept_loop true more
accept_loop false (handshake_failed ∷ more) = plain ∷ accept_loop false more
accept_loop false (connection ∷ more) = plain ∷ accept_loop false more

-- One minute in nanoseconds, as `timer_.expires_at` adds it.
abbrev pub minute : ℕ
minute = 60 * 1000000000

-- The sessions with the expiry of `timer_`, and whether it is waited for.
pub record Timer : Type 0 where
  pub state : State
  pub expiry : ℕ
  pub waiting : Bool

-- An error, such as a cancelled wait, ends the chain of calls.
unfoldable pub handle_timeout : Environment → Bool → Timer → Timer
handle_timeout env error t =
    if error then record { state = t.state; expiry = t.expiry; waiting = false } else record {
      state = cleanup_expired_sessions env t.state;
      expiry = t.expiry + minute;
      waiting = true;
    }

-- `unset` is the expiry that the timer's service gives to a timer that was never set.
unfoldable pub start_cleanup_timer : Environment → ℕ → State → Timer
unfolding handle_timeout
start_cleanup_timer env unset st =
    handle_timeout env false (record { state = st; expiry = unset; waiting = false })

-- The calls of `handle_timeout` when the wait ends in the given ways, an error or none.
unfoldable pub run_timer : Environment → List Bool → Timer → Timer
unfolding handle_timeout
run_timer env [] t = t
run_timer env (error ∷ errors) t =
    if t.waiting then run_timer env errors (handle_timeout env error t) else t

-- How many of the waits ended without an error before the first that did not.
unfoldable pub rounds : List Bool → ℕ
rounds [] = 0
rounds (error ∷ errors) = if error then 0 else suc (rounds errors)

run_timer-stopped :
    (env : Environment) (errors : List Bool) (t : Timer)
    → t.waiting ≡ false
    → run_timer env errors t ≡ t
unfolding run_timer
run_timer-stopped env [] t off = refl
run_timer-stopped env (error ∷ errors) t off = rw off refl

run_timer-waiting :
    (env : Environment) (errors : List Bool) (t : Timer)
    → t.waiting ≡ true
    → IsValid t.state.sessions
    → ((run_timer env errors t).expiry ≡ t.expiry + rounds errors * minute)
      × IsValid (run_timer env errors t).state.sessions
unfolding run_timer rounds handle_timeout
run_timer-waiting env [] t on valid = (omega arith, valid)
run_timer-waiting env (true ∷ errors) t on valid =
    rw (on, run_timer-stopped env errors (handle_timeout env true t) refl) (omega arith, valid)
run_timer-waiting env (false ∷ errors) t on valid =
    let next : Timer = handle_timeout env false t in
    let (time, still) =
      run_timer-waiting env errors next refl (cleanup_expired_sessions-IsValid env t.state valid) in
    rw on (omega (arith, time), still)

-- The cleanup rounds leave valid sessions valid, and the timer's expiry after `n` undisturbed waits is `n + 1` minutes after
-- that of a timer which was never set. The time at which the timer starts is not in it: waits whose expiry lies before
-- that end at once.
pub start_cleanup_timer_lem :
    (env : Environment) (errors : List Bool) (unset : ℕ) (st : State)
    → IsValid st.sessions
    → let t = run_timer env errors (start_cleanup_timer env unset st) in
      (t.expiry ≡ unset + suc (rounds errors) * minute) × IsValid t.state.sessions
unfolding start_cleanup_timer handle_timeout
start_cleanup_timer_lem env errors unset st valid =
    let (time, still) =
      run_timer-waiting env errors (start_cleanup_timer env unset st) refl
        (cleanup_expired_sessions-IsValid env st valid) in
    (omega (arith, time), still)

-- With TLS, a client whose handshake fails ends the loop: no connection behind it is served.
pub accept_loop-handshake_failed :
    (before later : List Accepted)
    → accept_loop true (before ++ (handshake_failed ∷ later)) ≡ accept_loop true before
unfolding accept_loop
accept_loop-handshake_failed [] later = refl
accept_loop-handshake_failed (accept_failed ∷ before) later = refl
accept_loop-handshake_failed (handshake_failed ∷ before) later = refl
accept_loop-handshake_failed (connection ∷ before) later =
    ap (λ (spawned : List Spawned). encrypted ∷ spawned) (accept_loop-handshake_failed before later)
