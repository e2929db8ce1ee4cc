-- ===== src/OneOne/Spin.antt =====
-- one-one/src/thread_sync.c and thread_sync.h, the spinlocks: any number of threads that call lock, trylock
-- and unlock on one spinlock, interleaved access by access. A thread may call unlock whether or not it holds
-- the spinlock. The handles of the threads are not NULL, which is 0.
pub mod Exclusion
mod Examples
use libthreads_c.Base.{ℕ, ◌≡◌, ◌≢◌, Bool, true, false, update, if◌then◌else◌, ◌==◌}
use libthreads_c.Mods.Utils.{atomic_cas}

abbrev pub spinlock_acquired : ℕ
spinlock_acquired = 0

abbrev pub spinlock_not_acquired : ℕ
spinlock_not_acquired = 1

-- What a thread does next: `outside` and `inside` are where it calls; `owning`: it stores itself as the owner;
-- `checking`, with whether it was inside: it compares the owner. `busy` and `denied` are failed calls.
pub data Pc : Type 0 where
  outside locking trying busy owning inside clearing releasing : Pc
  checking denied : (was_inside : Bool) → Pc

pub record System : Type 0 where
  pub owner : ℕ
  pub lock : ℕ
  pub pc : ℕ → Pc

abbrev pub goto : ℕ → Pc → System → System
goto t p s = record s { pc = update s.pc t p }

abbrev pub spin_init : System
spin_init = record { owner = 0; lock = spinlock_not_acquired; pc = λ t. outside }

-- One atomic access, which goes on to `otherwise` if the spinlock is taken.
abbrev pub spin_acq_lock : Pc → ℕ → System → System
spin_acq_lock otherwise t s =
    let (done, word) = atomic_cas s.lock spinlock_not_acquired spinlock_acquired in
    goto t (if done then owning else otherwise) (record s { lock = word })

abbrev pub spin_set_owner : ℕ → System → System
spin_set_owner t s = goto t inside (record s { owner = t })

abbrev pub spin_check_owner : Bool → ℕ → System → System
spin_check_owner was_inside t s = goto t (if s.owner == t then clearing else denied was_inside) s

abbrev pub spin_clear_owner : ℕ → System → System
spin_clear_owner t s = goto t releasing (record s { owner = 0 })

abbrev pub spin_rel_lock : ℕ → System → System
spin_rel_lock t s =
    let (done, word) = atomic_cas s.lock spinlock_acquired spinlock_not_acquired in
    goto t outside (record s { lock = word })

abbrev pub back : Bool → Pc
back was_inside = if was_inside then inside else outside

pub data Step (s : System) : System → Type 0 where
  call_lock : (t : ℕ) → t ≢ 0 → s.pc t ≡ outside → Step s (goto t locking s)
  lock_round : (t : ℕ) → s.pc t ≡ locking → Step s (spin_acq_lock locking t s)
  call_trylock : (t : ℕ) → t ≢ 0 → s.pc t ≡ outside → Step s (goto t trying s)
  try_once : (t : ℕ) → s.pc t ≡ trying → Step s (spin_acq_lock busy t s)
  try_fail : (t : ℕ) → s.pc t ≡ busy → Step s (goto t outside s)
  lock_own : (t : ℕ) → s.pc t ≡ owning → Step s (spin_set_owner t s)
  call_unlock : (t : ℕ) → s.pc t ≡ inside → Step s (goto t (checking true) s)
  misuse_unlock : (t : ℕ) → t ≢ 0 → s.pc t ≡ outside → Step s (goto t (checking false) s)
  unlock_check :
      (t : ℕ) (was_inside : Bool)
      → s.pc t ≡ checking was_inside
      → Step s (spin_check_owner was_inside t s)
  unlock_clear : (t : ℕ) → s.pc t ≡ clearing → Step s (spin_clear_owner t s)
  unlock_release : (t : ℕ) → s.pc t ≡ releasing → Step s (spin_rel_lock t s)
  unlock_fail :
      (t : ℕ) (was_inside : Bool) → s.pc t ≡ denied was_inside → Step s (goto t (back was_inside) s)

pub data Reachable : System → Type 0 where
  start : Reachable spin_init
  next : (s g : System) → Reachable s → Step s g → Reachable g
