-- ===== src/Mutex.antt =====
-- base/Mutex.h: MutexLock and MutexLockGuard over a pthread mutex. A thread is a number, `ret` is what
-- the pthread call returns: 0, where it did what POSIX says of it, or the number of an error.
use wserver.Prelude.{ℕ, Option, none, some, Exec, done, stop, fatal, ◌==◌, if◌then◌else◌}

pub record MutexLock : Type 0 where
  pub holder : Option ℕ

unfoldable pub new : ℕ → Exec MutexLock
new ret = if ret == 0 then done (record { holder = none }) else stop fatal

unfoldable pub destroy : ℕ → Exec (Unit {0})
destroy ret = if ret == 0 then done tt else stop fatal

-- An error is printed, and returned.
unfoldable pub lock : ℕ → ℕ → MutexLock → ℕ × MutexLock
lock ret thread m = (ret, if ret == 0 then record { holder = some thread } else m)

unfoldable pub unlock : ℕ → MutexLock → ℕ × MutexLock
unlock ret m = (ret, if ret == 0 then record { holder = none } else m)

-- The constructor and the destructor of MutexLockGuard, which drop what lock and unlock return.
unfoldable pub guard : ℕ → ℕ → MutexLock → MutexLock
guard ret thread m = (lock ret thread m).1

unfoldable pub end_guard : ℕ → MutexLock → MutexLock
end_guard ret m = (unlock ret m).1
