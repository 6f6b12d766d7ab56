-- ===== src/Mutexes/SpinLocks/Yields.antt =====
-- How often `SpinLock::lock` of src/db/async_mutex.h yields.
use fast_db.Prelude.{ℕ, zero, suc, ◌+◌, ◌-◌, ◌*◌, ◌≤◌, ◌≡◌, refl, arith}

-- The inner loop of `SpinLock::lock` while the lock is held: how often `n` loads yield, from a counter, and the counter
-- afterwards. `counter-- <= 0` tests the counter before it falls.
unfoldable pub spin : ℕ → ℕ → ℕ → ℕ × ℕ
spin spin_count counter zero = (0, counter)
spin spin_count zero (suc n) =
    let (yields, last) = spin spin_count spin_count n in (suc yields, last)
spin spin_count (suc counter) (suc n) = spin spin_count counter n

spin-balance :
    (spin_count counter n : ℕ)
    → counter ≤ spin_count
    → let after = spin spin_count counter n in
      (n + (spin_count - counter) ≡ after.0 * (spin_count + 1) + (spin_count - after.1))
      × (after.1 ≤ spin_count)
unfolding spin
spin-balance spin_count counter zero h = (omega arith, h)
spin-balance spin_count zero (suc n) h =
    let (sum, bound) = spin-balance spin_count spin_count n (omega arith) in
    (grind (arith, sum), bound)
spin-balance spin_count (suc counter) (suc n) h =
    let (sum, bound) = spin-balance spin_count counter n (omega arith) in
    (omega (arith, sum, h), bound)

-- While the lock stays held, the loop yields once in every `spin_count + 1` loads: the yields and the counter are the
-- quotient and what the remainder leaves of `spin_count`.
pub spin_yields :
    (spin_count n : ℕ)
    → let after = spin spin_count spin_count n in
      (n ≡ after.0 * (spin_count + 1) + (spin_count - after.1)) × (after.1 ≤ spin_count)
spin_yields spin_count n =
    let (sum, bound) = spin-balance spin_count spin_count n (omega arith) in
    (omega (arith, sum), bound)

-- The inner loop of `SpinLock::coLock` over `n` loads: the line that would suspend is a comment, so that the counter is set back and
-- the coroutine goes on spinning. It gives how often it suspended, and the counter.
unfoldable pub co_spin : ℕ → ℕ → ℕ → ℕ × ℕ
co_spin spin_count counter zero = (0, counter)
co_spin spin_count zero (suc n) = co_spin spin_count spin_count n
co_spin spin_count (suc counter) (suc n) = co_spin spin_count counter n

-- Both loops bring the counter to the same value, but `lock` yields whenever the counter is at its end, and `coLock` never
-- suspends: while the lock stays held, it does not give its thread to the coroutine that could unlock it.
pub co_spin-spin :
    (spin_count counter n : ℕ)
    → ((co_spin spin_count counter n).1 ≡ (spin spin_count counter n).1)
      × ((co_spin spin_count counter n).0 ≡ 0)
unfolding co_spin spin
co_spin-spin spin_count counter zero = (refl, refl)
co_spin-spin spin_count zero (suc n) = co_spin-spin spin_count spin_count n
co_spin-spin spin_count (suc counter) (suc n) = co_spin-spin spin_count counter n
