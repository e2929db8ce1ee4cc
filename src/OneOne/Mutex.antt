-- ===== src/OneOne/Mutex.antt =====
-- one-one/src/thread_sync.c and thread_sync.h: the futex mutex, as its threads interleave on it.
-- Each access to the mutex is a step of its own, as are the kernel's parts of FUTEX_WAIT and
-- FUTEX_WAKE. A thread is named by its handle, and `outside` is any code that is in none of the
-- calls. The mutex is a valid one: the calls with a NULL pointer touch nothing that is shared.
pub mod Exclusion
pub mod Wakeup
mod Examples
use libthreads_c.Base.{ℕ, ◌≡◌, ◌≢◌, Bool, true, false, update, if◌then◌else◌, ◌==◌}
use libthreads_c.Mods.Utils.{atomic_cas}

abbrev pub mutex_acquired : ℕ
mutex_acquired = 0

abbrev pub mutex_not_acquired : ℕ
mutex_not_acquired = 1

-- What a thread does next. `locking`: the compare and swap of the loop's test; `waiting`:
-- FUTEX_WAIT; `asleep`: nothing, until the kernel wakes it; `trying`: the compare and swap of
-- trylock; `owning`: the store of itself as the owner; `inside`: the code between lock and
-- unlock; `disowning`: the store of NULL as the owner; `releasing`: the compare and swap of
-- unlock; `waking`: FUTEX_WAKE.
pub data Pc : Type 0 where
  outside locking waiting asleep trying owning inside disowning releasing waking : Pc

-- `lock` and `owner` are the mutex; NULL is 0.
pub record System : Type 0 where
  pub owner : ℕ
  pub lock : ℕ
  pub pc : ℕ → Pc

abbrev pub goto : ℕ → Pc → System → System
goto t p s = record s { pc = update s.pc t p }

-- mut_init
abbrev pub mut_init : System
mut_init = record { owner = 0; lock = mutex_not_acquired; pc = λ t. outside }

-- mut_acq_lock by `t`, which goes on at `failed` when it fails.
abbrev pub mut_acq_lock : ℕ → Pc → System → System
mut_acq_lock t failed s =
    let (done, lock) = atomic_cas s.lock mutex_not_acquired mutex_acquired in
    goto t (if done then owning else failed) (record s { lock = lock })

-- mut_wait by `t`: the kernel puts it to sleep if the word still is MUTEX_ACQUIRED, else the call
-- returns; either way the loop's test is next.
abbrev pub mut_wait : ℕ → System → System
mut_wait t s = goto t (if s.lock == mutex_acquired then asleep else locking) s

-- The owner is stored, and the call of lock or trylock returns.
abbrev pub set_owner : ℕ → System → System
set_owner t s = goto t inside (record s { owner = t })

-- The check of unlock: who is not the owner goes back to what it did.
abbrev pub check_owner : ℕ → System → System
check_owner t s = if s.owner == t then goto t disowning s else s

abbrev pub clear_owner : ℕ → System → System
clear_owner t s = goto t releasing (record s { owner = 0 })

abbrev pub mut_rel_lock : ℕ → System → System
mut_rel_lock t s =
    let (done, lock) = atomic_cas s.lock mutex_acquired mutex_not_acquired in
    goto t waking (record s { lock = lock })

-- One step of one thread, whose handle is not NULL.
pub data Step (s : System) : System → Type 0 where
  call_lock : (t : ℕ) → s.pc t ≡ outside → Step s (goto t locking s)
  lock_cas : (t : ℕ) → s.pc t ≡ locking → Step s (mut_acq_lock t waiting s)
  lock_wait : (t : ℕ) → s.pc t ≡ waiting → Step s (mut_wait t s)
  -- a signal, or a wake that FUTEX_WAIT reports without a reason
  interrupted : (t : ℕ) → s.pc t ≡ asleep → Step s (goto t locking s)
  call_trylock : (t : ℕ) → s.pc t ≡ outside → Step s (goto t trying s)
  trylock_cas : (t : ℕ) → s.pc t ≡ trying → Step s (mut_acq_lock t outside s)
  lock_returns : (t : ℕ) → t ≢ 0 → s.pc t ≡ owning → Step s (set_owner t s)
  unlock_outside : (t : ℕ) → t ≢ 0 → s.pc t ≡ outside → Step s (check_owner t s)
  unlock_inside : (t : ℕ) → t ≢ 0 → s.pc t ≡ inside → Step s (check_owner t s)
  unlock_clear : (t : ℕ) → s.pc t ≡ disowning → Step s (clear_owner t s)
  unlock_release : (t : ℕ) → s.pc t ≡ releasing → Step s (mut_rel_lock t s)
  -- FUTEX_WAKE wakes one thread that sleeps, if there is one
  wake_one :
      (t u : ℕ) → s.pc t ≡ waking → s.pc u ≡ asleep → Step s (goto t outside (goto u locking s))
  wake_none : (t : ℕ) → s.pc t ≡ waking → ((u : ℕ) → s.pc u ≢ asleep) → Step s (goto t outside s)

-- What any number of threads can bring a fresh mutex to.
pub data Reachable : System → Type 0 where
  start : Reachable mut_init
  next : (s g : System) → Reachable s → Step s g → Reachable g
