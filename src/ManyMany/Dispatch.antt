-- ===== src/ManyMany/Dispatch.antt =====
-- many-many/src/mmsched.c, with what thread_cntl.c and thread_sig.c do to the ready list and to the descriptors' locks:
-- any number of dispatchers, each on its kernel thread, that take threads from one ready list, while the
-- threads that they run create, join, signal, yield and exit.
-- A step is one access to the shared state. What stands between mmrll_lock and mmrll_unlock is one step, since
-- only the holder of that lock touches the list (Mods/Lock/Exclusion); the locks of the descriptors are words,
-- as they are held across a switch. A handle is not used again once its thread has been joined, so descriptors
-- are not freed, and one that has not been created is as td_init leaves it. Mutexes and the pending signals are
-- left out. A thread is preempted where its interrupts may be on: also in thread_kill, and in thread_join between
-- td_enable_intr and td_unlock when it is refused, where it leaves with the lock of another descriptor taken.
-- thread_kill turns its target's interrupts on, so that a target inside thread_join may be preempted there too; one
-- inside thread_create or thread_exit stands, by its state, before or after that call's step.
pub mod Places
pub mod Keeps
pub mod Points
pub mod Moves
pub mod Lists
pub mod Locks
pub mod Contexts
pub mod Turns
pub mod Goto
pub mod Switches
pub mod Steps
pub mod Order
pub mod Stuck
mod Examples
use libthreads_c.Base.{
  ℕ, suc, ◌≡◌, ◌≢◌, ◌≤◌, Bool, true, false, List, [], ◌∷◌, ◌++◌, update, if◌then◌else◌, ◌==◌,
}
use libthreads_c.Mods.Lock.{lock_try, lock_release}

-- What a dispatcher does next, with the thread that it has chosen, runs or has run:
-- * loop: at the head of `_mmsched_dispatch`; chosen: with a thread off the ready list; sending: in
--   send_pending_signals; prepared: before the switch to the thread; running: the thread runs.
-- * joining: thread_join before it has the target's lock; testing and registered: before td_has_joining and
--   before td_is_over; refused and returning: before the release of the lock, on failure and success; parking:
--   the switch is done, and the dispatcher is about to release the target's lock.
--   resuming: thread_join has been switched to, or has released the lock, while its state is still that it waits.
-- * killing, signalling and enabling: thread_kill before it has the target's lock, before it releases it, and before
--   it turns the target's interrupts on.
-- * yielded: the switch is done, and the thread is running by its state.
-- * exiting: post_schedule_exited_action before it has the lock; settling and leaving: before td_set_over and
--   before td_has_joining; waking: before it puts the joiner on the ready list.
pub data Pc : Type 0 where
  loop : Pc
  chosen sending prepared running yielded exiting settling leaving waking parking : ℕ → Pc
  joining testing registered refused returning resuming : (thread target : ℕ) → Pc
  killing signalling enabling : (thread target : ℕ) → Pc

-- What a thread does next that is switched to: what the application says; for `awaiting` the end of a join that waited;
-- the rest of thread_kill from one of its three points; the rest of a join that is refused; or, when it was preempted
-- inside thread_join, what it was at there, with whether its state was that it waits.
pub data Context : Type 0 where
  plain : Context
  awaiting kill_waits kill_holds kill_enables join_holds : (target : ℕ) → Context
  inside : (waits : Bool) → Pc → Context

abbrev pub resumed : ℕ → Context → Pc
resumed p plain = running p
resumed p (awaiting q) = resuming p q
resumed p (kill_waits q) = killing p q
resumed p (kill_holds q) = signalling p q
resumed p (kill_enables q) = enabling p q
resumed p (join_holds q) = refused p q
resumed p (inside waits at) = at

-- The state of a thread that was switched from is that it waits for another one's end.
abbrev pub waits : Context → Bool
waits (awaiting q) = true
waits (inside w at) = w
waits _ = false

-- Where a thread's interrupts may be on without a thread_kill of it.
abbrev pub Preemptible : Context → Type 0
Preemptible (awaiting q) = ⊥
Preemptible (inside w at) = ⊥
Preemptible _ = Unit {0}

-- `over` is whether the wait word is clear, `saved` whether the thread's context holds what the thread does next,
-- `context` what that is, `plain` for a thread that runs, `intr_off` whether its interrupts are off, and `created` the last thread that was made; threads are
-- numbered from 1.
pub record System : Type 0 where
  pub mmrll : List ℕ
  pub over : ℕ → Bool
  pub join_thread : ℕ → ℕ
  pub mem_lock : ℕ → ℕ
  pub saved : ℕ → Bool
  pub context : ℕ → Context
  pub intr_off : ℕ → Bool
  pub created : ℕ
  pub pc : ℕ → Pc

abbrev pub goto : ℕ → Pc → System → System
goto k p s = record s { pc = update s.pc k p }

-- td_disable_intr and td_enable_intr on the thread `q`.
abbrev pub set_intr : ℕ → ℕ → Bool → Pc → System → System
set_intr k q off after s = goto k after (record s { intr_off = update s.intr_off q off })

-- One round of td_lock on the descriptor `q`.
abbrev pub td_lock : ℕ → ℕ → Pc → Pc → System → System
unfolding lock_try
td_lock k q got again s =
    let (done, word) = lock_try (s.mem_lock q) in
    goto k (if done then got else again) (record s { mem_lock = update s.mem_lock q word })

abbrev pub td_unlock : ℕ → ℕ → Pc → System → System
unfolding lock_release
td_unlock k q p s =
    goto k p (record s { mem_lock = update s.mem_lock q (lock_release (s.mem_lock q)) })

-- get_next_thread on a list that is not empty; on an empty one it changes nothing.
abbrev pub get_next_thread : ℕ → ℕ → List ℕ → System → System
get_next_thread k p rest s = goto k (chosen p) (record s { mmrll = rest })

-- set_fs and the switch to the thread's context.
abbrev pub td_set_cxt : ℕ → ℕ → System → System
td_set_cxt k p s =
    goto k (resumed p (s.context p))
      (record s { saved = update s.saved p false; context = update s.context p plain })

-- The switch back to the dispatcher, with the rest of the thread's call saved.
abbrev pub td_ret_cxt : ℕ → ℕ → Context → Pc → System → System
td_ret_cxt k p c after s =
    goto k after (record s { saved = update s.saved p true; context = update s.context p c })

-- mmrll_enqueue between mmrll_lock and mmrll_unlock.
abbrev pub enqueue : ℕ → ℕ → Pc → System → System
enqueue k p after s = goto k after (record s { mmrll = s.mmrll ++ p ∷ [] })

-- thread_create: the new thread stands at the end of the ready list.
abbrev pub thread_create : ℕ → ℕ → System → System
thread_create k p s =
    goto k (running p) (record s { mmrll = s.mmrll ++ suc s.created ∷ []; created = suc s.created })

-- td_has_joining, and td_set_joining if there is none; else the caller's interrupts are turned on.
abbrev pub join_test : ℕ → ℕ → ℕ → System → System
join_test k p q s =
    if s.join_thread q == 0
    then goto k (registered p q) (record s { join_thread = update s.join_thread q p })
    else set_intr k p false (refused p q) s

-- td_is_over; if the target is not over, the switch to the dispatcher.
abbrev pub park_or_return : ℕ → ℕ → ℕ → System → System
park_or_return k p q s =
    if s.over q then goto k (returning p q) s else td_ret_cxt k p (awaiting q) (parking q) s

abbrev pub td_set_over : ℕ → ℕ → System → System
td_set_over k p s = goto k (leaving p) (record s { over = update s.over p true })

-- td_has_joining, and the release of the lock on both branches.
abbrev pub exit_joined : ℕ → ℕ → System → System
exit_joined k p s = td_unlock k p (if s.join_thread p == 0 then loop else waking p) s

-- Where a thread in thread_join is at `at` when the timer's handler switches to the dispatcher, which goes on at
-- `after` by the thread's state, `w` for one that waits: then it releases the lock of the thread that is joined.
pub data Inside (p : ℕ) : Pc → Pc → Bool → Type 0 where
  before_lock : (q : ℕ) → Inside p (joining p q) (yielded p) false
  with_lock : (q : ℕ) → Inside p (testing p q) (yielded p) false
  registered_runs : (q : ℕ) → Inside p (registered p q) (yielded p) false
  registered_waits : (q : ℕ) → Inside p (registered p q) (parking q) true
  found_over : (q : ℕ) → Inside p (returning p q) (parking q) true
  resumed_waits : (q : ℕ) → Inside p (resuming p q) (parking q) true
  resumed_runs : (q : ℕ) → Inside p (resuming p q) (yielded p) false

-- The steps of the dispatcher `k`. What a thread that runs does is up to the application; `yield`: it calls
-- thread_yield, or is preempted; `repeat`: a signal for the kernel thread is pending; `skip`: the thread that was
-- chosen is not running by its state. `disturbed`: whether a thread that is inside thread_join may be preempted when
-- its interrupts are on, which only a thread_kill of it turns on there.
pub data Step (disturbed : Bool) (s : System) : System → Type 0 where
  choose :
      (k p : ℕ) (rest : List ℕ)
      → s.pc k ≡ loop
      → s.mmrll ≡ p ∷ rest
      → Step disturbed s (get_next_thread k p rest s)
  skip :
      (k p : ℕ)
      → waits (s.context p) ≡ true
      → s.pc k ≡ chosen p
      → Step disturbed s (goto k (prepared p) s)
  send_lock :
      (k p : ℕ)
      → waits (s.context p) ≡ false
      → s.pc k ≡ chosen p
      → Step disturbed s (td_lock k p (sending p) (chosen p) s)
  send_unlock : (k p : ℕ) → s.pc k ≡ sending p → Step disturbed s (td_unlock k p (prepared p) s)
  enter : (k p : ℕ) → s.pc k ≡ prepared p → Step disturbed s (td_set_cxt k p s)
  yield :
      (k p : ℕ) (c : Context)
      → Preemptible c
      → s.pc k ≡ resumed p c
      → Step disturbed s (td_ret_cxt k p c (yielded p) s)
  repeat : (k p : ℕ) → s.pc k ≡ yielded p → Step disturbed s (goto k (prepared p) s)
  requeue : (k p : ℕ) → s.pc k ≡ yielded p → Step disturbed s (enqueue k p loop s)
  create : (k p : ℕ) → s.pc k ≡ running p → Step disturbed s (thread_create k p s)
  join_call :
      (k p q : ℕ)
      → q ≢ 0
      → q ≤ s.created
      → p ≢ q
      → s.join_thread p ≢ q
      → s.pc k ≡ running p
      → Step disturbed s (set_intr k p true (joining p q) s)
  join_lock :
      (k p q : ℕ)
      → s.pc k ≡ joining p q
      → Step disturbed s (td_lock k q (testing p q) (joining p q) s)
  join_joined : (k p q : ℕ) → s.pc k ≡ testing p q → Step disturbed s (join_test k p q s)
  join_refuse : (k p q : ℕ) → s.pc k ≡ refused p q → Step disturbed s (td_unlock k q (running p) s)
  join_waits : (k p q : ℕ) → s.pc k ≡ registered p q → Step disturbed s (park_or_return k p q s)
  join_return :
      (k p q : ℕ) → s.pc k ≡ returning p q → Step disturbed s (td_unlock k q (resuming p q) s)
  join_done :
      (k p q : ℕ) → s.pc k ≡ resuming p q → Step disturbed s (set_intr k p false (running p) s)
  join_parked : (k q : ℕ) → s.pc k ≡ parking q → Step disturbed s (td_unlock k q loop s)
  kill_call :
      (k p q : ℕ)
      → q ≢ 0
      → q ≤ s.created
      → s.pc k ≡ running p
      → Step disturbed s (set_intr k q true (killing p q) s)
  kill_lock :
      (k p q : ℕ)
      → s.pc k ≡ killing p q
      → Step disturbed s (td_lock k q (signalling p q) (killing p q) s)
  kill_unlock :
      (k p q : ℕ) → s.pc k ≡ signalling p q → Step disturbed s (td_unlock k q (enabling p q) s)
  kill_enable :
      (k p q : ℕ) → s.pc k ≡ enabling p q → Step disturbed s (set_intr k q false (running p) s)
  exit : (k p : ℕ) → s.pc k ≡ running p → Step disturbed s (set_intr k p true (exiting p) s)
  exit_lock :
      (k p : ℕ) → s.pc k ≡ exiting p → Step disturbed s (td_lock k p (settling p) (exiting p) s)
  exit_over : (k p : ℕ) → s.pc k ≡ settling p → Step disturbed s (td_set_over k p s)
  exit_tests : (k p : ℕ) → s.pc k ≡ leaving p → Step disturbed s (exit_joined k p s)
  wake : (k p : ℕ) → s.pc k ≡ waking p → Step disturbed s (enqueue k (s.join_thread p) loop s)
  preempt_inside :
      (k p : ℕ) (at after : Pc) (w : Bool)
      → disturbed ≡ true
      → s.intr_off p ≡ false
      → Inside p at after w
      → s.pc k ≡ at
      → Step disturbed s (td_ret_cxt k p (inside w at) after s)

-- main has created the main thread, 1, and every dispatcher is at the head of its loop.
abbrev pub started : System
started = record {
  mmrll = 1 ∷ [];
  over = λ p. false;
  join_thread = λ p. 0;
  mem_lock = λ p. 1;
  saved = λ p. true;
  context = λ p. plain;
  intr_off = λ p. false;
  created = 1;
  pc = λ k. loop;
}

pub data Reachable (disturbed : Bool) : System → Type 0 where
  start : Reachable disturbed started
  next : (s g : System) → Reachable disturbed s → Step disturbed s g → Reachable disturbed g
