-- ===== src/Mods/Lock.antt =====
-- mods/lock.c: the busy-wait lock. The lock word is an argument, and the word after the call a
-- result; `lock_acquire` is its loop while no other thread changes the word.
pub mod Threads
pub mod Exclusion
mod Examples
use libthreads_c.Base.{ℕ, Bool, Option, none, some, if◌then◌else◌}
use libthreads_c.Mods.Utils.{atomic_cas}

abbrev pub lock_acquired : ℕ
lock_acquired = 0

abbrev pub lock_not_acquired : ℕ
lock_not_acquired = 1

unfoldable pub lock_init : ℕ → ℕ
lock_init lock = lock_not_acquired

-- One round of the loop: whether the lock was taken, and the word after it.
unfoldable pub lock_try : ℕ → Bool × ℕ
lock_try lock = atomic_cas lock lock_not_acquired lock_acquired

-- With no other thread running: `none` is a loop that never ends.
unfoldable pub lock_acquire : ℕ → Option ℕ
unfolding lock_try
lock_acquire lock = let (done, lock') = lock_try lock in if done then some lock' else none

unfoldable pub lock_release : ℕ → ℕ
lock_release lock = let (done, lock') = atomic_cas lock lock_acquired lock_not_acquired in lock'
