-- ===== src/Mutexes/SpinLocks.antt =====
-- The spin locks of src/common/mutex_utils.cppm and src/db/async_mutex.h: SpinlockMutex, spin_mutex, spin_lock and SpinLock.
pub mod Yields
use fast_db.Prelude.{
  ℕ, zero, suc, ◌+◌, ◌-◌, ◌*◌, ◌≤◌, Bool, true, false, not, List, some, if◌then◌else◌, get_elem?,
  set, replicate, ltb, ◌==◌, ==_iff, Bool-cases, inl, inr, ◌≡◌, refl, ap, arith,
}
use fast_db.Mutexes.Threads.{sum_of, sum_of-set, sum_of-at, sum_of-pair}

-- `test_and_set`, and `exchange(true)`: the old flag, and the new one.
unfoldable pub test_and_set : Bool → Bool × Bool
test_and_set flag = (flag, true)

-- `compare_exchange_strong(expected, true)`: success, the flag and `expected` afterwards.
unfoldable pub compare_exchange_strong : Bool → Bool → Bool × Bool × Bool
compare_exchange_strong expected true =
    if expected then (true, true, expected) else (false, true, true)
compare_exchange_strong expected false =
    if expected then (false, false, false) else (true, true, expected)

-- One attempt of each lock: whether it got the lock, and the flag.
unfoldable pub spinlock_mutex_try : Bool → Bool × Bool
unfolding test_and_set
spinlock_mutex_try flag = let (old, new) = test_and_set flag in (not old, new)

-- The loop sets `expected` to false before each attempt.
unfoldable pub spin_mutex_try : Bool → Bool × Bool
unfolding compare_exchange_strong
spin_mutex_try flag =
    let (success, new, expected) = compare_exchange_strong false flag in (success, new)

-- `spin_lock::try_lock` and `SpinLock::tryLock`
unfoldable pub try_lock : Bool → Bool × Bool
unfolding test_and_set
try_lock flag = let (old, new) = test_and_set flag in (not old, new)

pub data Lock : Type 0 where
  spinlock_mutex spin_mutex spin_lock async_spin_lock : Lock

unfoldable pub attempt : Lock → Bool → Bool × Bool
attempt spinlock_mutex flag = spinlock_mutex_try flag
attempt spin_mutex flag = spin_mutex_try flag
attempt spin_lock flag = try_lock flag
attempt async_spin_lock flag = try_lock flag

-- What `spin_lock::lock` does behind its failed attempt `k`.
pub data Pause : Type 0 where
  yield : Pause
  -- a number of milliseconds
  sleep_for : ℕ → Pause

unfoldable pub pause : ℕ → Pause
pause k = if ltb k 16 then yield else if ltb k 32 then sleep_for 0 else sleep_for 1

-- Where a thread stands.
pub data Phase : Type 0 where
  idle : Phase
  spinning : Phase
  holding : Phase

pub record SpinLock : Type 0 where
  pub flag : Bool
  pub threads : List Phase

unfoldable pub after_attempt : Bool → Phase
after_attempt success = if success then holding else spinning

-- One step of the thread `i`: it calls `lock`, it makes an attempt, or it calls `unlock`.
pub data Step (lock : Lock) : SpinLock → SpinLock → Type 0 where
  call_lock :
      {s : SpinLock} (i : ℕ)
      → get_elem? s.threads i ≡ some idle
      → Step lock s (record s { threads = set s.threads i spinning })
  try_once :
      {s : SpinLock} (i : ℕ)
      → get_elem? s.threads i ≡ some spinning
      → Step lock s (record {
        flag = (attempt lock s.flag).1;
        threads = set s.threads i (after_attempt (attempt lock s.flag).0);
      })
  unlock :
      {s : SpinLock} (i : ℕ)
      → get_elem? s.threads i ≡ some holding
      → Step lock s (record { flag = false; threads = set s.threads i idle })

pub data Reaches (lock : Lock) : SpinLock → SpinLock → Type 0 where
  here : {s : SpinLock} → Reaches lock s s
  next : {s t u : SpinLock} → Reaches lock s t → Step lock t u → Reaches lock s u

unfoldable pub free : ℕ → SpinLock
free k = record { flag = false; threads = replicate k idle }

abbrev holds : Phase → ℕ
holds holding = 1
holds _ = 0

abbrev bit : Bool → ℕ
bit true = 1
bit false = 0

bit-bound : (b : Bool) → bit b ≤ 1
bit-bound true = omega arith
bit-bound false = omega arith

-- The flag is up exactly while one thread holds the lock.
unfoldable IsValid : SpinLock → Type 0
IsValid s = bit s.flag ≡ sum_of holds s.threads

attempt-free : (lock : Lock) → attempt lock false ≡ (true, true)
unfolding attempt spinlock_mutex_try spin_mutex_try try_lock
attempt-free spinlock_mutex = refl
attempt-free spin_mutex = refl
attempt-free spin_lock = refl
attempt-free async_spin_lock = refl

attempt-busy : (lock : Lock) → attempt lock true ≡ (false, true)
unfolding attempt spinlock_mutex_try spin_mutex_try try_lock
attempt-busy spinlock_mutex = refl
attempt-busy spin_mutex = refl
attempt-busy spin_lock = refl
attempt-busy async_spin_lock = refl

Step-IsValid : (lock : Lock) {s t : SpinLock} → Step lock s t → IsValid s → IsValid t
unfolding IsValid after_attempt
Step-IsValid lock (call_lock {s} i e) v =
    omega (arith, sum_of-set holds s.threads i idle spinning e, v)
Step-IsValid lock (try_once {s} i e) v = elim (Bool-cases s.flag) [
  | inl t ↦
      let m = sum_of-set holds s.threads i spinning spinning e in
      rw (t, attempt-busy lock) (omega (arith, m, ap bit t, v))
  | inr t ↦
      let m = sum_of-set holds s.threads i spinning holding e in
      rw (t, attempt-free lock) (omega (arith, m, ap bit t, v))
]
Step-IsValid lock (unlock {s} i e) v =
    let m = sum_of-set holds s.threads i holding idle e in
    let one : bit s.flag ≤ 1 = bit-bound s.flag in
    omega (arith, m, v, one, sum_of-at holds s.threads i holding e)

sum_of-replicate : (k : ℕ) → sum_of holds (replicate k idle) ≡ 0
unfolding sum_of
sum_of-replicate zero = refl
sum_of-replicate (suc k) = omega (arith, sum_of-replicate k)

Reaches-IsValid : (lock : Lock) {s t : SpinLock} → Reaches lock s t → IsValid s → IsValid t
Reaches-IsValid lock here v = v
Reaches-IsValid lock (next r step) v = Step-IsValid lock step (Reaches-IsValid lock r v)

free-IsValid : (k : ℕ) → IsValid (free k)
unfolding IsValid free
free-IsValid k = omega (arith, sum_of-replicate k)

-- With each of the four locks and any number of threads, in every run at most one thread holds the lock, and the flag is up
-- while one does.
pub spin_exclusion :
    (lock : Lock) (k : ℕ) (s : SpinLock)
    → Reaches lock (free k) s
    → (i j : ℕ) → get_elem? s.threads i ≡ some holding
    → get_elem? s.threads j ≡ some holding
    → (i ≡ j) × (s.flag ≡ true)
unfolding IsValid
spin_exclusion lock k s r i j hi hj =
    let v = Reaches-IsValid lock r (free-IsValid k) in
    let one : bit s.flag ≤ 1 = bit-bound s.flag in
    (
      elim (Bool-cases (i == j)) [
        | inl e ↦ (==_iff i j).0 e
        | inr e ↦ absurd (
            omega (
              arith,
              v,
              one,
              sum_of-pair holds s.threads i j holding holding hi hj
                  (λ (p : i ≡ j). ground (arith, ==_iff i j, p, e)),
            ))
      ],
      elim (Bool-cases s.flag) [
        | inl e ↦ e
        | inr e ↦ absurd (omega (arith, v, ap bit e, sum_of-at holds s.threads i holding hi))
      ],
    )
