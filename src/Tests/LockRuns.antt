-- ===== src/Tests/LockRuns.antt =====
-- The theorems on src/common/mutex_utils.cppm in short runs.
use fast_db.Prelude.{
  ℕ, get_elem?, some, true, false, [], ◌∷◌, replicate, ◌≡◌, ◌≢◌, inl, refl, arith,
}
use fast_db.Mutexes.SpinLocks
use fast_db.Mutexes.Semaphore
use fast_db.Mutexes.ReadWriteLock.{
  idle, writing, reading, ReadWriteLock, write_lock, all_idle, Reaches, here, next,
}
use fast_db.Mutexes.ReadWriteLock.Exclusion.{mutual_exclusion}
use fast_db.Mutexes.ReadWriteLock.Unlocking.{to_unlock, unlock_defined}

-- Two threads, of which the first writes.
abbrev written : ReadWriteLock
written = record { read_mtx = false; write_mtx = true; read_cnt = 0; threads = writing ∷ idle ∷ [] }

one_writer : Reaches (all_idle (replicate 2 idle)) written
unfolding all_idle
one_writer = next here (write_lock 0 refl)

mutual_exclusion_example : (idle ≢ writing) × (idle ≢ reading)
mutual_exclusion_example =
    mutual_exclusion 2 written one_writer 0 1 idle refl refl (λ (e : 0 ≡ 1). omega arith)

unlock_defined_example : to_unlock writing written ≢ some false
unlock_defined_example = unlock_defined 2 written one_writer 0 writing refl

-- One thread that has got the lock of a `spin_mutex`, of two.
abbrev spun : SpinLocks.SpinLock
spun = record { flag = true; threads = SpinLocks.holding ∷ SpinLocks.idle ∷ [] }

one_holder : SpinLocks.Reaches SpinLocks.spin_mutex (SpinLocks.free 2) spun
unfolding SpinLocks.free SpinLocks.attempt SpinLocks.spin_mutex_try SpinLocks.after_attempt
one_holder =
    SpinLocks.next (SpinLocks.next SpinLocks.here (SpinLocks.call_lock 0 refl))
      (SpinLocks.try_once 0 refl)

abbrev first : ℕ
first = 0

spin_exclusion_example : (first ≡ first) × (spun.flag ≡ true)
spin_exclusion_example =
    SpinLocks.spin_exclusion SpinLocks.spin_mutex 2 spun one_holder first first refl refl

-- The first of two threads has gone to sleep, and the other has posted.
abbrev posted : Semaphore.Semaphore
posted = record { count = 1; threads = Semaphore.awake ∷ Semaphore.sleeping ∷ [] }

one_post : Semaphore.Reaches (Semaphore.semaphore 5 2) posted
unfolding Semaphore.semaphore Semaphore.after_test Semaphore.wrapped
one_post =
    Semaphore.next
      (Semaphore.next (Semaphore.next Semaphore.here (Semaphore.wait 0 (inl refl)))
        (Semaphore.wait 1 (inl refl)))
      (Semaphore.post_one 0 refl)

no_lost_wakeup_example : (j : ℕ) × (get_elem? posted.threads j ≡ some Semaphore.awake)
no_lost_wakeup_example = Semaphore.no_lost_wakeup 5 2 posted one_post 1 refl (omega arith)
