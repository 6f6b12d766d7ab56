-- ===== src/Mutexes.antt =====
-- src/common/mutex_utils.cppm: locks as step relations over the threads that use them, and the owning pointer.
pub mod Threads
pub mod ReadWriteLock
pub mod SpinLocks
pub mod Semaphore
pub mod ScopedPtr
