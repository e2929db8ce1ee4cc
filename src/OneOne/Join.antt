-- ===== src/OneOne/Join.antt =====
-- one-one/src/thread_cntl.c: thread_join by any number of threads on one target, against
-- thread_exit by the target, as they interleave. Each access to the target's descriptor is a step
-- of its own; so are the kernel's parts of FUTEX_WAIT and of the target's end, where
-- CLONE_CHILD_CLEARTID (td_create in thread_descr.h) makes it clear the wait word and wake a
-- thread that waits on it. The joiners have passed the checks for a NULL handle and for a
-- deadlock.
pub mod Facts
pub mod Once
pub mod Returns
mod Examples
use libthreads_c.Base.{ℕ, ◌≡◌, ◌≢◌, Bool, true, false, update, if◌then◌else◌, ◌==◌}
use libthreads_c.Mods.Utils.{atomic_cas}

pub data State : Type 0 where
  running exited joined : State

abbrev pub is_joined : State → Bool
is_joined running = false
is_joined exited = false
is_joined joined = true

-- The members of `struct Thread` that the two calls share, and whether its stack is mapped.
pub record Target : Type 0 where
  pub state : State
  pub ret : ℕ
  pub wait : ℕ
  pub join_td : ℕ
  pub mem_lock : ℕ
  pub stack : Bool

-- What a joiner does next. `checking`: td_is_joined; `locking`: td_lock; `testing`:
-- td_has_join_thread; `refusing`: td_unlock and EINVAL; `claiming`: td_set_join_thread;
-- `claimed`: td_is_over; `unlocking`: td_unlock, before the wait; `waiting`: FUTEX_WAIT;
-- `finishing`: td_unlock, with no wait; `marking`: the store of THREAD_STATE_JOINED; `fetching`:
-- td_get_ret; `freeing`: td_free. `refused` is a return with EINVAL, `returned` a return with
-- success.
pub data Pc : Type 0 where
  outside checking locking testing refusing refused claiming claimed unlocking waiting asleep : Pc
  finishing marking fetching : Pc
  freeing returned : (ret : ℕ) → Pc

-- How far the target is: its start routine runs; thread_exit has stored the result, then the
-- state; its kernel thread is no more.
pub data Progress : Type 0 where
  works stored leaves gone : Progress

pub record System : Type 0 where
  pub target : Target
  pub progress : Progress
  pub pc : ℕ → Pc

abbrev pub goto : ℕ → Pc → System → System
goto t p s = record s { pc = update s.pc t p }

-- A fresh thread with the kernel thread id `ktid`: td_alloc, td_init and CLONE_PARENT_SETTID.
abbrev pub created : ℕ → ℕ → System
created ktid ret = record {
  target = record {
    state = running;
    ret = ret;
    wait = ktid;
    join_td = 0;
    mem_lock = 1;
    stack = true;
  };
  progress = works;
  pc = λ t. outside;
}

abbrev pub check_joined : ℕ → System → System
check_joined t s = goto t (if is_joined s.target.state then refused else locking) s

abbrev pub td_lock : ℕ → System → System
td_lock t s =
    let (done, lock) = atomic_cas s.target.mem_lock 1 0 in
    goto t (if done then testing else locking)
      (record s { target = record s.target { mem_lock = lock } })

abbrev pub td_has_join_thread : ℕ → System → System
td_has_join_thread t s = goto t (if s.target.join_td == 0 then claiming else refusing) s

abbrev pub td_set_join_thread : ℕ → System → System
td_set_join_thread t s = goto t claimed (record s { target = record s.target { join_td = t } })

abbrev pub td_is_over : ℕ → System → System
td_is_over t s = goto t (if s.target.wait == 0 then finishing else unlocking) s

abbrev pub td_unlock : ℕ → Pc → System → System
td_unlock t p s =
    let (done, lock) = atomic_cas s.target.mem_lock 0 1 in
    goto t p (record s { target = record s.target { mem_lock = lock } })

-- The kernel puts the caller to sleep only if the word still holds the kernel thread id.
abbrev pub futex_wait : ℕ → ℕ → System → System
futex_wait ktid t s = goto t (if s.target.wait == ktid then asleep else marking) s

abbrev pub mark_joined : ℕ → System → System
mark_joined t s = goto t fetching (record s { target = record s.target { state = joined } })

abbrev pub td_get_ret : ℕ → System → System
td_get_ret t s = goto t (freeing s.target.ret) s

abbrev pub td_free : ℕ → ℕ → System → System
td_free t ret s = goto t (returned ret) (record s { target = record s.target { stack = false } })

abbrev pub store_ret : ℕ → System → System
store_ret value s = record s { target = record s.target { ret = value }; progress = stored }

abbrev pub store_exited : System → System
store_exited s = record s { target = record s.target { state = exited }; progress = leaves }

abbrev pub clear_tid : System → System
clear_tid s = record s { target = record s.target { wait = 0 }; progress = gone }

-- One step, of a joiner whose handle is not NULL or of the target, which exits with `value`. `signals`: whether a
-- signal that a sleeping joiner handles may come.
pub data Step (signals : Bool) (ktid value : ℕ) (s : System) : System → Type 0 where
  call_join : (t : ℕ) → t ≢ 0 → s.pc t ≡ outside → Step signals ktid value s (goto t checking s)
  join_check : (t : ℕ) → s.pc t ≡ checking → Step signals ktid value s (check_joined t s)
  join_lock : (t : ℕ) → s.pc t ≡ locking → Step signals ktid value s (td_lock t s)
  join_test : (t : ℕ) → s.pc t ≡ testing → Step signals ktid value s (td_has_join_thread t s)
  join_refuse : (t : ℕ) → s.pc t ≡ refusing → Step signals ktid value s (td_unlock t refused s)
  join_claim : (t : ℕ) → s.pc t ≡ claiming → Step signals ktid value s (td_set_join_thread t s)
  join_over : (t : ℕ) → s.pc t ≡ claimed → Step signals ktid value s (td_is_over t s)
  join_unlock : (t : ℕ) → s.pc t ≡ unlocking → Step signals ktid value s (td_unlock t waiting s)
  join_wait : (t : ℕ) → s.pc t ≡ waiting → Step signals ktid value s (futex_wait ktid t s)
  -- FUTEX_WAIT returns with EINTR, which the caller does not look at.
  join_interrupt :
      (t : ℕ) → signals ≡ true → s.pc t ≡ asleep → Step signals ktid value s (goto t marking s)
  join_finish : (t : ℕ) → s.pc t ≡ finishing → Step signals ktid value s (td_unlock t marking s)
  join_mark : (t : ℕ) → s.pc t ≡ marking → Step signals ktid value s (mark_joined t s)
  join_fetch : (t : ℕ) → s.pc t ≡ fetching → Step signals ktid value s (td_get_ret t s)
  join_free : (t ret : ℕ) → s.pc t ≡ freeing ret → Step signals ktid value s (td_free t ret s)
  exit_ret : s.progress ≡ works → Step signals ktid value s (store_ret value s)
  exit_state : s.progress ≡ stored → Step signals ktid value s (store_exited s)
  -- sys_exit: the word is cleared, and a thread that sleeps on it is woken, if there is one
  exit_wake :
      (u : ℕ)
      → s.progress ≡ leaves
      → s.pc u ≡ asleep
      → Step signals ktid value s (goto u marking (clear_tid s))
  exit_alone :
      s.progress ≡ leaves → ((u : ℕ) → s.pc u ≢ asleep) → Step signals ktid value s (clear_tid s)

pub data Reachable (signals : Bool) (ktid value ret : ℕ) : System → Type 0 where
  start : Reachable signals ktid value ret (created ktid ret)
  next :
      (s g : System)
      → Reachable signals ktid value ret s
      → Step signals ktid value s g
      → Reachable signals ktid value ret g
