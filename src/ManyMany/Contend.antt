-- ===== src/ManyMany/Contend.antt =====
-- many-many/src/thread_sync.c and thread_sync.h, the mutex: any number of threads that call lock, trylock and unlock
-- on one mutex, and the dispatchers that switch them. The owner and the waiting list are read and written under
-- the mutex's lock only, so what a call does with them between two accesses to the lock is one step; the switch to
-- the dispatcher and the entry in the ready list are steps of their own. A thread that is not inside may call unlock.
-- The handles of the threads are not NULL, which is 0.
pub mod Facts
pub mod Moves
pub mod Handover
pub mod Steps
pub mod Order
mod Examples
use libthreads_c.Base.{
  ℕ, ◌≡◌, ◌≢◌, Bool, true, false, List, [], ◌∷◌, ◌++◌, update, if◌then◌else◌, ◌==◌,
}
use libthreads_c.Mods.Lock.{lock_try, lock_release}

-- What a thread does next: `outside` and `inside` are where it calls. locking, trying, unlocking: before mut_lock;
-- testing, try_testing, checking: after it; granted, refused, denied, releasing: before mut_unlock; switching: on
-- the waiting list, before the switch; parking: switched, while its dispatcher is about to release the lock;
-- parked: switched, and to be resumed from the ready list; waking: before it puts the new owner on that list.
-- `was_inside` is whether the thread that calls unlock was inside.
pub data Pc : Type 0 where
  outside locking testing trying try_testing granted refused switching parking parked inside
        releasing :
      Pc
  unlocking checking denied : (was_inside : Bool) → Pc
  waking : (new_owner : ℕ) → Pc

-- `ready` is whether the thread stands on the ready list after a wait.
pub record System : Type 0 where
  pub owner : ℕ
  pub waitll : List ℕ
  pub mem_lock : ℕ
  pub ready : ℕ → Bool
  pub pc : ℕ → Pc

abbrev pub goto : ℕ → Pc → System → System
goto t p s = record s { pc = update s.pc t p }

abbrev pub mut_init : System
mut_init = record { owner = 0; waitll = []; mem_lock = 1; ready = λ t. false; pc = λ t. outside }

-- One round of mut_lock.
abbrev pub mut_lock : ℕ → Pc → Pc → System → System
unfolding lock_try
mut_lock t got again s =
    let (done, word) = lock_try s.mem_lock in
    goto t (if done then got else again) (record s { mem_lock = word })

abbrev pub mut_unlock : ℕ → Pc → System → System
unfolding lock_release
mut_unlock t p s = goto t p (record s { mem_lock = lock_release s.mem_lock })

-- thread_mutex_lock under the lock: the thread becomes the owner, or it is put on the waiting list.
abbrev pub lock_or_wait : ℕ → System → System
lock_or_wait t s =
    if s.owner == 0
    then goto t granted (record s { owner = t })
    else goto t switching (record s { waitll = s.waitll ++ t ∷ [] })

-- thread_mutex_trylock under the lock.
abbrev pub lock_or_fail : ℕ → System → System
lock_or_fail t s =
    if s.owner == 0 then goto t granted (record s { owner = t }) else goto t refused s

-- thread_mutex_unlock by the owner: the first thread that waits, if there is one, becomes the owner.
abbrev pub hand_over : ℕ → List ℕ → System → System
hand_over t [] s = goto t releasing (record s { owner = 0 })
hand_over t (u ∷ rest) s = goto t (waking u) (record s { owner = u; waitll = rest })

-- thread_mutex_unlock under the lock.
abbrev pub check_owner : ℕ → Bool → System → System
check_owner t was_inside s =
    if s.owner == t then hand_over t s.waitll s else goto t (denied was_inside) s

-- mmrll_enqueue of the new owner.
abbrev pub make_ready : ℕ → ℕ → System → System
make_ready t u s = goto t releasing (record s { ready = update s.ready u true })

-- A dispatcher takes a thread that has waited off the ready list and switches to it.
abbrev pub resume : ℕ → System → System
resume t s = goto t inside (record s { ready = update s.ready t false })

abbrev pub back : Bool → Pc
back was_inside = if was_inside then inside else outside

pub data Step (s : System) : System → Type 0 where
  call_lock : (t : ℕ) → t ≢ 0 → s.pc t ≡ outside → Step s (goto t locking s)
  lock_round : (t : ℕ) → s.pc t ≡ locking → Step s (mut_lock t testing locking s)
  lock_tests : (t : ℕ) → s.pc t ≡ testing → Step s (lock_or_wait t s)
  lock_returns : (t : ℕ) → s.pc t ≡ granted → Step s (mut_unlock t inside s)
  lock_switches : (t : ℕ) → s.pc t ≡ switching → Step s (goto t parking s)
  post_wait : (t : ℕ) → s.pc t ≡ parking → Step s (mut_unlock t parked s)
  lock_resumes : (t : ℕ) → s.pc t ≡ parked → s.ready t ≡ true → Step s (resume t s)
  call_trylock : (t : ℕ) → t ≢ 0 → s.pc t ≡ outside → Step s (goto t trying s)
  trylock_round : (t : ℕ) → s.pc t ≡ trying → Step s (mut_lock t try_testing trying s)
  trylock_tests : (t : ℕ) → s.pc t ≡ try_testing → Step s (lock_or_fail t s)
  trylock_fails : (t : ℕ) → s.pc t ≡ refused → Step s (mut_unlock t outside s)
  call_unlock : (t : ℕ) → s.pc t ≡ inside → Step s (goto t (unlocking true) s)
  misuse_unlock : (t : ℕ) → t ≢ 0 → s.pc t ≡ outside → Step s (goto t (unlocking false) s)
  unlock_round :
      (t : ℕ) (was_inside : Bool)
      → s.pc t ≡ unlocking was_inside
      → Step s (mut_lock t (checking was_inside) (unlocking was_inside) s)
  unlock_checks :
      (t : ℕ) (was_inside : Bool)
      → s.pc t ≡ checking was_inside
      → Step s (check_owner t was_inside s)
  unlock_denied :
      (t : ℕ) (was_inside : Bool)
      → s.pc t ≡ denied was_inside
      → Step s (mut_unlock t (back was_inside) s)
  unlock_wakes : (t u : ℕ) → s.pc t ≡ waking u → Step s (make_ready t u s)
  unlock_returns : (t : ℕ) → s.pc t ≡ releasing → Step s (mut_unlock t outside s)

pub data Reachable : System → Type 0 where
  start : Reachable mut_init
  next : (s g : System) → Reachable s → Step s g → Reachable g
