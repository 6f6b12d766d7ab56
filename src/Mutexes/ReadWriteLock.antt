-- ===== src/Mutexes/ReadWriteLock.antt =====
-- `readWriteLock` of src/common/mutex_utils.cppm, with the threads that use it. `lock` of a mutex that is held cannot
-- step; `unlock` of a mutex that nobody holds is undefined, and has no step either. Who holds a mutex is not kept: the last reader
-- may unlock what the first reader locked, which is undefined for a `std::mutex` if they are different threads, and is an
-- ordinary step here.
pub mod Exclusion
pub mod Unlocking
use fast_db.Prelude.{
  ℕ, zero, suc, ◌+◌, ◌-◌, Bool, true, false, List, Option, some, if◌then◌else◌, get_elem?, set,
  ◌==◌, ◌≡◌,
}

-- Where a thread stands.
pub data Phase : Type 0 where
  idle : Phase
  -- `readLock` behind `readMtx.lock()`
  read_locking : Phase
  -- behind `++readCnt == 1`, before `writeMtx.lock()`
  first_reader : Phase
  -- before the last line of `readLock`
  read_locked : Phase
  -- between `readLock` and `readUnlock`
  reading : Phase
  -- `readUnlock` behind `readMtx.lock()`
  read_unlocking : Phase
  -- behind `--readCnt == 0`, before `writeMtx.unlock()`
  last_reader : Phase
  -- before the last line of `readUnlock`
  read_unlocked : Phase
  -- between `writeLock` and `writeUnlock`
  writing : Phase

pub record ReadWriteLock : Type 0 where
  pub read_mtx : Bool
  pub write_mtx : Bool
  pub read_cnt : ℕ
  pub threads : List Phase

unfoldable pub after_increment : ℕ → Phase
after_increment n = if n == 1 then first_reader else read_locked

unfoldable pub after_decrement : ℕ → Phase
after_decrement n = if n == 0 then last_reader else read_unlocked

-- One step of the thread `i`.
pub data Step : ReadWriteLock → ReadWriteLock → Type 0 where
  read_lock_begin :
      {w : Bool} {n : ℕ} {ts : List Phase} (i : ℕ)
      → get_elem? ts i ≡ some idle
      → Step
          (record { read_mtx = false; write_mtx = w; read_cnt = n; threads = ts })
          (record { read_mtx = true; write_mtx = w; read_cnt = n; threads = set ts i read_locking })
  read_lock_count :
      {r w : Bool} {n : ℕ} {ts : List Phase} (i : ℕ)
      → get_elem? ts i ≡ some read_locking
      → Step
          (record { read_mtx = r; write_mtx = w; read_cnt = n; threads = ts })
          (record {
            read_mtx = r;
            write_mtx = w;
            read_cnt = n + 1;
            threads = set ts i (after_increment (n + 1));
          })
  read_lock_write :
      {r : Bool} {n : ℕ} {ts : List Phase} (i : ℕ)
      → get_elem? ts i ≡ some first_reader
      → Step
          (record { read_mtx = r; write_mtx = false; read_cnt = n; threads = ts })
          (record { read_mtx = r; write_mtx = true; read_cnt = n; threads = set ts i read_locked })
  read_lock_end :
      {w : Bool} {n : ℕ} {ts : List Phase} (i : ℕ)
      → get_elem? ts i ≡ some read_locked
      → Step
          (record { read_mtx = true; write_mtx = w; read_cnt = n; threads = ts })
          (record { read_mtx = false; write_mtx = w; read_cnt = n; threads = set ts i reading })
  read_unlock_begin :
      {w : Bool} {n : ℕ} {ts : List Phase} (i : ℕ)
      → get_elem? ts i ≡ some reading
      → Step
          (record { read_mtx = false; write_mtx = w; read_cnt = n; threads = ts })
          (record {
            read_mtx = true;
            write_mtx = w;
            read_cnt = n;
            threads = set ts i read_unlocking;
          })
  read_unlock_count :
      {r w : Bool} {n : ℕ} {ts : List Phase} (i : ℕ)
      → get_elem? ts i ≡ some read_unlocking
      → Step
          (record { read_mtx = r; write_mtx = w; read_cnt = n; threads = ts })
          (record {
            read_mtx = r;
            write_mtx = w;
            read_cnt = n - 1;
            threads = set ts i (after_decrement (n - 1));
          })
  read_unlock_write :
      {r : Bool} {n : ℕ} {ts : List Phase} (i : ℕ)
      → get_elem? ts i ≡ some last_reader
      → Step
          (record { read_mtx = r; write_mtx = true; read_cnt = n; threads = ts })
          (record {
            read_mtx = r;
            write_mtx = false;
            read_cnt = n;
            threads = set ts i read_unlocked;
          })
  read_unlock_end :
      {w : Bool} {n : ℕ} {ts : List Phase} (i : ℕ)
      → get_elem? ts i ≡ some read_unlocked
      → Step
          (record { read_mtx = true; write_mtx = w; read_cnt = n; threads = ts })
          (record { read_mtx = false; write_mtx = w; read_cnt = n; threads = set ts i idle })
  write_lock :
      {r : Bool} {n : ℕ} {ts : List Phase} (i : ℕ)
      → get_elem? ts i ≡ some idle
      → Step
          (record { read_mtx = r; write_mtx = false; read_cnt = n; threads = ts })
          (record { read_mtx = r; write_mtx = true; read_cnt = n; threads = set ts i writing })
  write_unlock :
      {r : Bool} {n : ℕ} {ts : List Phase} (i : ℕ)
      → get_elem? ts i ≡ some writing
      → Step
          (record { read_mtx = r; write_mtx = true; read_cnt = n; threads = ts })
          (record { read_mtx = r; write_mtx = false; read_cnt = n; threads = set ts i idle })

unfoldable pub all_idle : List Phase → ReadWriteLock
all_idle ts = record { read_mtx = false; write_mtx = false; read_cnt = 0; threads = ts }

pub data Reaches : ReadWriteLock → ReadWriteLock → Type 0 where
  here : {s : ReadWriteLock} → Reaches s s
  next : {s t u : ReadWriteLock} → Reaches s t → Step t u → Reaches s u
