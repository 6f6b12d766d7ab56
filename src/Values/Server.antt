-- ===== src/Values/Server.antt =====
-- `RedisServer` of src/db/values.h. The acceptor is a parameter: the ends of its `async_accept`, in order.
use fast_db.Prelude.{
  ℕ, suc, Option, none, some, List, [], ◌∷◌, ◌++◌, ◌-◌, append_assoc, append-nil, ◌≡◌, refl, arith,
  ap, sym, ◌∙◌,
}
use fast_db.Values.Session.{World}

-- The slots with the heap of their values, the sockets of the sessions made, in order, and how many `async_accept` wait.
pub record RedisServer (D : Type 0) : Type 0 where
  pub world : World D
  pub sessions : List ℕ
  pub accepting : ℕ

module _ {D : Type 0} where
  -- `start` drops the awaitable of `read_request`, which has not begun to run.
  unfoldable pub start : World D → World D
  start w = w

  unfoldable pub start_accept : RedisServer D → RedisServer D
  start_accept s = record { world = s.world; sessions = s.sessions; accepting = suc s.accepting }

  -- A session over the socket, if there was no error.
  unfoldable pub new_session : Option ℕ → RedisServer D → RedisServer D
  unfolding start
  new_session none s = s
  new_session (some socket) s = record {
    world = start s.world;
    sessions = s.sessions ++ socket ∷ [];
    accepting = s.accepting;
  }

  -- The callback of a waiting `async_accept`, with a socket or an error.
  unfoldable pub accepted : Option ℕ → RedisServer D → RedisServer D
  unfolding new_session start_accept
  accepted socket s =
      let done : RedisServer D = record {
        world = s.world;
        sessions = s.sessions;
        accepting = s.accepting - 1;
      } in
      start_accept (new_session socket done)

  unfoldable pub redis_server : World D → RedisServer D
  unfolding start_accept
  redis_server w = start_accept (record { world = w; sessions = []; accepting = 0 })

  unfoldable pub run_server : List (Option ℕ) → RedisServer D → RedisServer D
  unfolding accepted
  run_server [] s = s
  run_server (e ∷ events) s = run_server events (accepted e s)

abbrev pub socket_of : Option ℕ → List ℕ
socket_of none = []
socket_of (some socket) = socket ∷ []

-- The sockets accepted without an error.
unfoldable pub sockets : List (Option ℕ) → List ℕ
sockets [] = []
sockets (e ∷ events) = socket_of e ++ sockets events

module _ {D : Type 0} where
  accepted-sessions :
      (e : Option ℕ) (s : RedisServer D)
      → ((accepted e s).sessions ≡ s.sessions ++ socket_of e)
        × (((accepted e s).accepting ≡ suc (s.accepting - 1)) × ((accepted e s).world ≡ s.world))
  unfolding accepted new_session start_accept start
  accepted-sessions none s = (sym (append-nil s.sessions), (refl, refl))
  accepted-sessions (some socket) s = (refl, (refl, refl))

  run_server-sessions :
      (events : List (Option ℕ)) (s : RedisServer D)
      → s.accepting ≡ 1
      → ((run_server events s).sessions ≡ s.sessions ++ sockets events)
        × (((run_server events s).accepting ≡ 1) × ((run_server events s).world ≡ s.world))
  unfolding run_server sockets
  run_server-sessions [] s one = (sym (append-nil s.sessions), (one, refl))
  run_server-sessions (e ∷ events) s one =
      let (here, (still, same)) = accepted-sessions e s in
      let (rest, (on, kept)) =
        run_server-sessions events (accepted e s) (omega (arith, still, one)) in
      (
        rest
            ∙ (ap (λ (t : List ℕ). t ++ sockets events) here
                ∙ append_assoc s.sessions (socket_of e) (sockets events)),
        (on, kept ∙ same),
      )

-- Whatever connections and errors come, the server keeps exactly one `async_accept` waiting, makes one session for each
-- connection without an error, in order, and leaves the slots as they were at its start: no session runs.
pub redis_server_lem :
    {D : Type 0} (events : List (Option ℕ)) (w : World D)
    → let s = run_server events (redis_server w) in
      (s.sessions ≡ sockets events) × ((s.accepting ≡ 1) × (s.world ≡ w))
unfolding redis_server start_accept
redis_server_lem events w = run_server-sessions events (redis_server w) refl
