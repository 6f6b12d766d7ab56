-- ===== src/Mutexes/ReadWriteLock/Exclusion.antt =====
-- Mutual exclusion of src/common/mutex_utils.cppm's `readWriteLock`.
use fast_db.Prelude.{
  ℕ, zero, suc, ◌+◌, ◌-◌, ◌≤◌, Bool, true, false, List, some, if◌then◌else◌, get_elem?, set,
  replicate, ◌==◌, ◌≡◌, ◌⊎◌, inl, inr, refl, ap, ◌≢◌, Bool-cases, arith,
}
use fast_db.Mutexes.Threads.{sum_of, sum_of-set, sum_of-at, sum_of-pair}
use fast_db.Mutexes.ReadWriteLock.{
  Phase, idle, read_locking, first_reader, read_locked, reading, read_unlocking, last_reader,
  read_unlocked, writing, ReadWriteLock, Step, read_lock_begin, read_lock_count, read_lock_write,
  read_lock_end, read_unlock_begin, read_unlock_count, read_unlock_write, read_unlock_end,
  write_lock, write_unlock, after_increment, after_decrement, all_idle, Reaches, here, next,
}

abbrev pub bit : Bool → ℕ
bit true = 1
bit false = 0

-- Phases that `readCnt` counts, but for the one that waits.
abbrev pub counted : Phase → ℕ
counted read_locked = 1
counted reading = 1
counted read_unlocking = 1
counted _ = 0

-- Phases that hold `readMtx` and do not use `writeMtx`.
abbrev pub inside : Phase → ℕ
inside read_locking = 1
inside read_locked = 1
inside read_unlocking = 1
inside read_unlocked = 1
inside _ = 0

abbrev pub waits : Phase → ℕ
waits first_reader = 1
waits _ = 0

abbrev pub releases : Phase → ℕ
releases last_reader = 1
releases _ = 0

abbrev pub writes : Phase → ℕ
writes writing = 1
writes _ = 0

-- The lock's fields against the number of counted, inside, waiting, releasing and writing threads.
abbrev pub Balanced : Bool → Bool → (n c i f l x : ℕ) → Type 0
Balanced r w n c i f l x =
    (n ≡ c + f)
    × (bit r ≡ i + f + l)
    × (bit w + f ≡ x + l + (if n == 0 then 0 else 1))
    × ((f ≡ 0) ⊎ ((f ≡ 1) × (n ≡ 1)))
    × ((l ≡ 0) ⊎ ((l ≡ 1) × (n ≡ 0)))

unfoldable pub IsValid : ReadWriteLock → Type 0
IsValid s =
    Balanced s.read_mtx s.write_mtx s.read_cnt (sum_of counted s.threads) (sum_of inside s.threads)
      (sum_of waits s.threads) (sum_of releases s.threads) (sum_of writes s.threads)

-- All five sums behind a move of one thread.
abbrev Moved : List Phase → ℕ → Phase → Phase → Type 0
Moved ts i p q =
    (sum_of counted (set ts i q) + counted p ≡ sum_of counted ts + counted q)
    × (sum_of inside (set ts i q) + inside p ≡ sum_of inside ts + inside q)
    × (sum_of waits (set ts i q) + waits p ≡ sum_of waits ts + waits q)
    × (sum_of releases (set ts i q) + releases p ≡ sum_of releases ts + releases q)
    × (sum_of writes (set ts i q) + writes p ≡ sum_of writes ts + writes q)
    × (counted p ≤ sum_of counted ts)
    × (inside p ≤ sum_of inside ts)
    × (waits p ≤ sum_of waits ts)
    × (releases p ≤ sum_of releases ts)
    × (writes p ≤ sum_of writes ts)

moved : (ts : List Phase) (i : ℕ) (p q : Phase) → get_elem? ts i ≡ some p → Moved ts i p q
moved ts i p q e = (
  sum_of-set counted ts i p q e,
  sum_of-set inside ts i p q e,
  sum_of-set waits ts i p q e,
  sum_of-set releases ts i p q e,
  sum_of-set writes ts i p q e,
  sum_of-at counted ts i p e,
  sum_of-at inside ts i p e,
  sum_of-at waits ts i p e,
  sum_of-at releases ts i p e,
  sum_of-at writes ts i p e,
)

Step-IsValid : {s t : ReadWriteLock} → Step s t → IsValid s → IsValid t
unfolding IsValid after_increment after_decrement
Step-IsValid (read_lock_begin {w} {n} {ts} i e) v =
    let m = moved ts i idle read_locking e in ground arith
Step-IsValid (read_lock_count {r} {w} {n} {ts} i e) v = elim (Bool-cases ((n + 1) == 1)) [
  | inl t ↦ let m = moved ts i read_locking first_reader e in rw t (ground arith)
  | inr t ↦ let m = moved ts i read_locking read_locked e in rw t (ground arith)
]
Step-IsValid (read_lock_write {r} {n} {ts} i e) v =
    let m = moved ts i first_reader read_locked e in ground arith
Step-IsValid (read_lock_end {w} {n} {ts} i e) v =
    let m = moved ts i read_locked reading e in ground arith
Step-IsValid (read_unlock_begin {w} {n} {ts} i e) v =
    let m = moved ts i reading read_unlocking e in ground arith
Step-IsValid (read_unlock_count {r} {w} {n} {ts} i e) v = elim (Bool-cases ((n - 1) == 0)) [
  | inl t ↦ let m = moved ts i read_unlocking last_reader e in rw t (ground arith)
  | inr t ↦ let m = moved ts i read_unlocking read_unlocked e in rw t (ground arith)
]
Step-IsValid (read_unlock_write {r} {n} {ts} i e) v =
    let m = moved ts i last_reader read_unlocked e in ground arith
Step-IsValid (read_unlock_end {w} {n} {ts} i e) v =
    let m = moved ts i read_unlocked idle e in ground arith
Step-IsValid (write_lock {r} {n} {ts} i e) v = let m = moved ts i idle writing e in ground arith
Step-IsValid (write_unlock {r} {n} {ts} i e) v = let m = moved ts i writing idle e in ground arith

sum_of-replicate : (w : Phase → ℕ) (k : ℕ) → w idle ≡ 0 → sum_of w (replicate k idle) ≡ 0
unfolding sum_of
sum_of-replicate w zero h = refl
sum_of-replicate w (suc k) h = omega (arith, sum_of-replicate w k h, h)

pub all_idle-IsValid : (k : ℕ) → IsValid (all_idle (replicate k idle))
unfolding IsValid all_idle
all_idle-IsValid k =
    let a = sum_of-replicate counted k refl in
    let b = sum_of-replicate inside k refl in
    let c = sum_of-replicate waits k refl in
    let d = sum_of-replicate releases k refl in
    let e = sum_of-replicate writes k refl in ground arith

pub reaches-IsValid : {s t : ReadWriteLock} → Reaches s t → IsValid s → IsValid t
reaches-IsValid here v = v
reaches-IsValid (next r step) v = Step-IsValid step (reaches-IsValid r v)

writer-alone :
    (s : ReadWriteLock) (i j : ℕ) (q : Phase)
    → IsValid s
    → get_elem? s.threads i ≡ some writing
    → get_elem? s.threads j ≡ some q
    → (i ≡ j → ⊥)
    → (q ≢ writing) × (q ≢ reading)
unfolding IsValid
writer-alone s i j q v hi hj apart =
    let two = sum_of-pair writes s.threads i j writing q hi hj apart in
    let one = sum_of-at writes s.threads i writing hi in
    let other = sum_of-at counted s.threads j q hj in
    let b : bit s.write_mtx ≤ 1 = elim s.write_mtx as (λ x. bit x ≤ 1) [
      | true ↦ omega arith
      | false ↦ omega arith
    ] in
    (
      λ same. let w = ap writes same in ground arith,
      λ same. let c = ap counted same in ground arith,
    )

-- In every run of any number of threads, while a thread is between `writeLock` and `writeUnlock`, no other is there, and
-- none is between `readLock` and `readUnlock`.
pub mutual_exclusion :
    (k : ℕ) (s : ReadWriteLock)
    → Reaches (all_idle (replicate k idle)) s
    → (i j : ℕ) (q : Phase) → get_elem? s.threads i ≡ some writing
    → get_elem? s.threads j ≡ some q
    → i ≢ j
    → (q ≢ writing) × (q ≢ reading)
mutual_exclusion k s r i j q = writer-alone s i j q (reaches-IsValid r (all_idle-IsValid k))
