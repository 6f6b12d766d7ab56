-- ===== src/AsioCoro/EchoClient.antt =====
-- `start` of deprecated/async_simple_asio.cpp, a client of an echo server, over the operations of
-- deprecated/asio_coro_util.hpp.
use fast_db.Prelude.{
  ℕ, zero, suc, ◌+◌, ◌-◌, ◌*◌, true, false, Option, none, some, List, [], ◌∷◌, ◌++◌, Bytes, codes,
  replicate, length, if◌then◌else◌, ◌==◌, ◌≡◌, ◌≢◌, refl, arith,
}
use fast_db.AsioCoro.{
  Operation, Completion, async_connect_lazy, async_write_lazy, async_read_some_lazy,
}

abbrev pub max_length : ℕ
max_length = 1024

abbrev pub count : ℕ
count = 100000

-- `write_buf`, filled up with zeros.
abbrev pub write_buf : Bytes
write_buf = codes "hello async_simple" ++ replicate (max_length - 18) 0

-- How the coroutine ends: an exception of the resolver or of `start`, or its end, where it stops the io_context.
pub data End : Type 0 where
  resolve_error connect_error stopped : End

-- The rounds of the loop. Neither the errors nor the sizes of the completions are looked at.
unfoldable pub rounds : ℕ → ℕ → List Operation
unfolding async_write_lazy async_read_some_lazy
rounds socket zero = []
rounds socket (suc n) =
    (async_write_lazy socket write_buf).operation
    ∷ ((async_read_some_lazy socket max_length).operation ∷ rounds socket n)

unfoldable pub connected : ℕ → ℕ → Completion → Operation → List Operation × End
unfolding rounds
connected socket n c first =
    if c.ec == 0 then (first ∷ rounds socket n, stopped) else (first ∷ [], connect_error)

-- The operations that are awaited in order, and the end; `c` completes the first.
unfoldable pub start :
    (Bytes → Bytes → Option (List Bytes)) → ℕ → Bytes → Bytes → Completion → List Operation × End
unfolding async_connect_lazy connected
start resolve socket host port c = elim (async_connect_lazy resolve socket host port) [
  | none ↦ ([], resolve_error)
  | some aw ↦ connected socket count c aw.operation
]

length-rounds : (socket n : ℕ) → length (rounds socket n) ≡ 2 * n
unfolding rounds
length-rounds socket zero = refl
length-rounds socket (suc n) = omega (arith, length-rounds socket n)

-- Once connected, the client goes through all its rounds, whatever the server does, and then stops the io_context; if the
-- connection fails, it awaits nothing more.
pub connected_lem :
    (socket n : ℕ) (c : Completion) (first : Operation)
    → (c.ec ≡ 0
        → (length (connected socket n c first).0 ≡ 1 + 2 * n)
          × ((connected socket n c first).1 ≡ stopped))
      × (c.ec ≢ 0 → connected socket n c first ≡ (first ∷ [], connect_error))
unfolding connected
connected_lem socket n c first = (
  (λ h.
      let zero_code : (c.ec == 0) ≡ true = ground (arith, h) in
      rw zero_code (omega (arith, length-rounds socket n), refl)),
  (λ h. let code : (c.ec == 0) ≡ false = ground (arith, h) in rw code refl),
)
