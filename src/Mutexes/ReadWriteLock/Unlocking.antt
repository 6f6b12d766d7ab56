-- ===== src/Mutexes/ReadWriteLock/Unlocking.antt =====
-- That `readWriteLock` of src/common/mutex_utils.cppm unlocks no mutex that is free.
use fast_db.Prelude.{
  ℕ, Option, none, ◌+◌, ◌≤◌, Bool, true, false, some, get_elem?, replicate, ◌≡◌, inl, inr, ap, ◌≢◌,
  Bool-cases, arith,
}
use fast_db.Mutexes.Threads.{sum_of-at}
use fast_db.Mutexes.ReadWriteLock.{
  Phase, idle, read_locking, first_reader, read_locked, reading, read_unlocking, last_reader,
  read_unlocked, writing, ReadWriteLock, all_idle, Reaches,
}
use fast_db.Mutexes.ReadWriteLock.Exclusion.{
  bit, inside, releases, writes, IsValid, reaches-IsValid, all_idle-IsValid,
}

held-write :
    (s : ReadWriteLock) (i : ℕ) (p : Phase)
    → IsValid s
    → get_elem? s.threads i ≡ some p
    → 1 ≤ writes p + releases p
    → s.write_mtx ≡ true
unfolding IsValid
held-write s i p v h some_use =
    let a = sum_of-at writes s.threads i p h in
    let b = sum_of-at releases s.threads i p h in
    elim (Bool-cases s.write_mtx) [ inl t ↦ t | inr t ↦ absurd (ground (arith, ap bit t)) ]

held-read :
    (s : ReadWriteLock) (i : ℕ) (p : Phase)
    → IsValid s
    → get_elem? s.threads i ≡ some p
    → 1 ≤ inside p
    → s.read_mtx ≡ true
unfolding IsValid
held-read s i p v h some_use =
    let a = sum_of-at inside s.threads i p h in
    elim (Bool-cases s.read_mtx) [ inl t ↦ t | inr t ↦ absurd (ground (arith, ap bit t)) ]

never_free-bit : (b : Bool) → b ≡ true → some b ≢ some false
never_free-bit b h e = cc

-- The mutex that the next step of a thread unlocks, if it is one that unlocks.
abbrev pub to_unlock : Phase → ReadWriteLock → Option Bool
to_unlock writing s = some s.write_mtx
to_unlock last_reader s = some s.write_mtx
to_unlock read_locked s = some s.read_mtx
to_unlock read_unlocked s = some s.read_mtx
to_unlock _ s = none

never_free :
    (s : ReadWriteLock) (i : ℕ) (p : Phase)
    → IsValid s
    → get_elem? s.threads i ≡ some p
    → to_unlock p s ≢ some false
never_free s i idle v h e = cc
never_free s i read_locking v h e = cc
never_free s i first_reader v h e = cc
never_free s i read_locked v h e =
    never_free-bit s.read_mtx (held-read s i read_locked v h (omega arith)) e
never_free s i reading v h e = cc
never_free s i read_unlocking v h e = cc
never_free s i last_reader v h e =
    never_free-bit s.write_mtx (held-write s i last_reader v h (omega arith)) e
never_free s i read_unlocked v h e =
    never_free-bit s.read_mtx (held-read s i read_unlocked v h (omega arith)) e
never_free s i writing v h e =
    never_free-bit s.write_mtx (held-write s i writing v h (omega arith)) e

-- In every run, a thread that is about to unlock one of the two mutexes finds it locked.
pub unlock_defined :
    (k : ℕ) (s : ReadWriteLock)
    → Reaches (all_idle (replicate k idle)) s
    → (i : ℕ) (p : Phase) → get_elem? s.threads i ≡ some p
    → to_unlock p s ≢ some false
unlock_defined k s r i p h = let v = reaches-IsValid r (all_idle-IsValid k) in never_free s i p v h
