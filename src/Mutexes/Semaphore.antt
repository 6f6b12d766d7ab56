-- ===== src/Mutexes/Semaphore.antt =====
-- `semaphore` of src/common/mutex_utils.cppm, in the form without `sem_t`, with the threads that use it. Both operations
-- hold the mutex, which `_condition.wait` gives up while it sleeps.
use fast_db.Prelude.{
  ℕ, zero, suc, ◌+◌, ◌-◌, ◌%◌, ◌≤◌, ◌<◌, List, [], ◌∷◌, some, if◌then◌else◌, get_elem?, set,
  replicate, map, ◌==◌, ◌≡◌, ◌≢◌, ◌⊎◌, inl, inr, refl, arith,
}
use fast_db.Mutexes.Threads.{sum_of, sum_of-set, sum_of-at}

-- A `std::size_t` wraps.
abbrev pub size_t_values : ℕ
size_t_values = 18_446_744_073_709_551_616

unfoldable pub wrapped : ℕ → ℕ
wrapped n = n % size_t_values

-- A thread in `_condition.wait` sleeps until it is notified, or wakes for no reason; then it tests `_count` again.
pub data Phase : Type 0 where
  running sleeping awake : Phase

pub record Semaphore : Type 0 where
  pub count : ℕ
  pub threads : List Phase

-- The constructor sets `_count` to 0, whatever `initial` is.
unfoldable pub semaphore : ℕ → ℕ → Semaphore
semaphore initial k = record { count = 0; threads = replicate k running }

unfoldable pub notify : Phase → Phase
notify running = running
notify sleeping = awake
notify awake = awake

-- The test of `while (_count == 0)`, by a thread that holds the mutex.
unfoldable pub after_test : ℕ → Phase
after_test count = if count == 0 then sleeping else running

pub data Step : Semaphore → Semaphore → Type 0 where
  -- `wait` by a thread that runs, or a thread in it that is awake; `--_count` if it was not 0
  wait :
      {s : Semaphore} (i : ℕ)
      → (get_elem? s.threads i ≡ some running) ⊎ (get_elem? s.threads i ≡ some awake)
      → Step s (record { count = s.count - 1; threads = set s.threads i (after_test s.count) })
  wake_up :
      {s : Semaphore} (i : ℕ)
      → get_elem? s.threads i ≡ some sleeping
      → Step s (record s { threads = set s.threads i awake })
  -- `post(1)`: `notify_one` wakes some thread that sleeps
  post_one :
      {s : Semaphore} (i : ℕ)
      → get_elem? s.threads i ≡ some sleeping
      → Step s (record { count = wrapped (s.count + 1); threads = set s.threads i awake })
  -- `post(1)` where none sleeps
  post_unheard :
      {s : Semaphore}
      → ((i : ℕ) → get_elem? s.threads i ≢ some sleeping)
      → Step s (record { count = wrapped (s.count + 1); threads = s.threads })
  -- `post(n)` for another `n`: `notify_all`
  post_many :
      {s : Semaphore} (n : ℕ)
      → n ≢ 1
      → Step s (record { count = wrapped (s.count + n); threads = map notify s.threads })

pub data Reaches : Semaphore → Semaphore → Type 0 where
  here : {s : Semaphore} → Reaches s s
  next : {s t u : Semaphore} → Reaches s t → Step t u → Reaches s u

abbrev sleeps : Phase → ℕ
sleeps sleeping = 1
sleeps _ = 0

abbrev wakes : Phase → ℕ
wakes awake = 1
wakes _ = 0

unfoldable IsValid : Semaphore → Type 0
IsValid s = (sum_of sleeps s.threads ≡ 0) ⊎ (s.count ≤ sum_of wakes s.threads)

notify-all : (ts : List Phase) → sum_of sleeps (map notify ts) ≡ 0
unfolding sum_of notify
notify-all [] = refl
notify-all (running ∷ ts) = omega (arith, notify-all ts)
notify-all (sleeping ∷ ts) = omega (arith, notify-all ts)
notify-all (awake ∷ ts) = omega (arith, notify-all ts)

none_sleeps : (ts : List Phase) → ((i : ℕ) → get_elem? ts i ≢ some sleeping) → sum_of sleeps ts ≡ 0
unfolding sum_of
none_sleeps [] h = refl
none_sleeps (running ∷ ts) h = omega (arith, none_sleeps ts (λ i. h (suc i)))
none_sleeps (sleeping ∷ ts) h = absurd (h 0 refl)
none_sleeps (awake ∷ ts) h = omega (arith, none_sleeps ts (λ i. h (suc i)))

-- A thread that tests the counter.
tested :
    (count i : ℕ) (ts : List Phase) (p : Phase)
    → get_elem? ts i ≡ some p
    → (p ≡ running) ⊎ (p ≡ awake)
    → IsValid (record { count = count; threads = ts })
    → IsValid (record { count = count - 1; threads = set ts i (after_test count) })
unfolding IsValid after_test
tested zero i ts running e how v =
    let w = sum_of-set wakes ts i running sleeping e in inr (omega arith)
tested zero i ts awake e how v = inr (omega arith)
tested zero i ts sleeping e how v = inr (omega arith)
tested (suc n) i ts running e how v =
    let w = sum_of-set wakes ts i running running e in
    let z = sum_of-set sleeps ts i running running e in ground arith
tested (suc n) i ts awake e how v =
    let w = sum_of-set wakes ts i awake running e in
    let z = sum_of-set sleeps ts i awake running e in ground arith
tested (suc n) i ts sleeping e (inl h) v = cc
tested (suc n) i ts sleeping e (inr h) v = cc

wrapped_le : (n : ℕ) → wrapped n ≤ n
unfolding wrapped
wrapped_le n = omega arith

Step-IsValid : {s t : Semaphore} → Step s t → IsValid s → IsValid t
unfolding IsValid
Step-IsValid (wait {s} i (inl e)) v = tested s.count i s.threads running e (inl refl) v
Step-IsValid (wait {s} i (inr e)) v = tested s.count i s.threads awake e (inr refl) v
Step-IsValid (wake_up {s} i e) v =
    let w = sum_of-set wakes s.threads i sleeping awake e in
    let z = sum_of-set sleeps s.threads i sleeping awake e in ground arith
Step-IsValid (post_one {s} i e) v =
    let fewer = wrapped_le (s.count + 1) in
    let w = sum_of-set wakes s.threads i sleeping awake e in
    let z = sum_of-set sleeps s.threads i sleeping awake e in ground arith
Step-IsValid (post_unheard {s} none_there) v = inl (none_sleeps s.threads none_there)
Step-IsValid (post_many {s} n other) v = inl (notify-all s.threads)

Reaches-IsValid : {s t : Semaphore} → Reaches s t → IsValid s → IsValid t
Reaches-IsValid here v = v
Reaches-IsValid (next r step) v = Step-IsValid step (Reaches-IsValid r v)

someone : (ts : List Phase) → 0 < sum_of wakes ts → (j : ℕ) × (get_elem? ts j ≡ some awake)
unfolding sum_of
someone [] h = absurd (omega arith)
someone (running ∷ ts) h = let (j, e) = someone ts (omega arith) in (suc j, e)
someone (sleeping ∷ ts) h = let (j, e) = someone ts (omega arith) in (suc j, e)
someone (awake ∷ ts) h = (0, refl)

semaphore-IsValid : (initial k : ℕ) → IsValid (semaphore initial k)
unfolding IsValid semaphore
semaphore-IsValid initial k = inr (omega arith)

-- No wake-up is lost: in every run, if a thread sleeps in `wait` although the counter is not 0, another thread is awake and
-- about to test it.
pub no_lost_wakeup :
    (initial k : ℕ) (s : Semaphore)
    → Reaches (semaphore initial k) s
    → (i : ℕ) → get_elem? s.threads i ≡ some sleeping
    → 0 < s.count
    → (j : ℕ) × (get_elem? s.threads j ≡ some awake)
unfolding IsValid
no_lost_wakeup initial k s r i e h =
    let one = sum_of-at sleeps s.threads i sleeping e in
    elim (Reaches-IsValid r (semaphore-IsValid initial k)) [
      | inl none_there ↦ absurd (omega arith)
      | inr enough ↦ someone s.threads (omega arith)
    ]
