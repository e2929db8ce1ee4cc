-- ===== src/OneOne/World.antt =====
-- one-one/src/thread_descr.h (`struct Thread` and its macros) and thread_errno.c: the state that the calls
-- share, and the commands that change it. A swap is a wait in the kernel, to leave is the end of the kernel
-- thread. Pointers, states, error numbers and statuses are those of many-many, whose interface is the same.
use libthreads_c.Base.{ℕ, Bool, Option, none, some, List, [], ◌∷◌, not, ◌==◌, if◌then◌else◌, update}
use libthreads_c.Mods.Lock.{lock_acquire, lock_release}
use libthreads_c.Mods.Utils.{minus_one}
pub use libthreads_c.Base.Outcome.{
  Outcome, ok, swap, leave, spins, fault, pure, or_spins, ◌>>=◌, ◌>>◌, modify, assert, Returns,
  Swaps, Leaves, Returns-bind, Returns-mono,
}
pub use libthreads_c.ManyMany.World.{
  Ptr, null, ThreadState, running, exited, joined, wait_join, Errno, einval, eagain, edeadlk,
  Status, fail, success,
}

pub record Thread : Type 0 where
  pub ktid : ℕ
  pub state : ThreadState
  pub start : Ptr
  pub arg : Ptr
  pub ret : Ptr
  pub wait : ℕ
  pub error : Errno
  pub join_td : Ptr
  pub mem_lock : ℕ
  pub stack : Ptr

-- `struct ThreadSpinLock` and `struct ThreadMutex`, which have the same members but for padding.
pub record Object : Type 0 where
  pub owner : Ptr
  pub lock : ℕ

-- What the library asks of the system, latest first.
pub data Event : Type 0 where
  signal_sent : (tid signo : ℕ) → Event
  sigprocmask : (how : ℕ) (set : Option (ℕ → Bool)) → Event
  freed stack_unmapped futex_waited futex_woken : Ptr → Event
  cloned : (thread ktid : ℕ) → Event
  yielded : Event

-- `self` is the FS register of the running kernel thread; `memory` and `clones` hold what the coming calls of
-- malloc and mmap, and of clone, return; `indeterminate` is a descriptor that no code has written.
pub record World : Type 0 where
  pub self : Ptr
  pub threads : Ptr → Option Thread
  pub spinlocks : Ptr → Option Object
  pub mutexes : Ptr → Option Object
  pub words : Ptr → ℕ
  pub memory : List Ptr
  pub clones : List ℕ
  pub indeterminate : Thread
  pub events : List Event

abbrev pub Run : Type 0 → Type 0
Run = Outcome World

abbrev pub Cmd : Type 0 → Type 0
Cmd A = World → Run A

abbrev pub or_fault : {A : Type 0} → Ptr → Option A → Cmd A
or_fault p none w = fault
or_fault p (some a) w = if p == null then fault else ok a w

abbrev pub load_thread : Ptr → Cmd Thread
load_thread p w = or_fault p (w.threads p) w

abbrev pub change_thread : Ptr → (Thread → Thread) → Cmd (Unit {0})
change_thread p f = do
  t ← load_thread p
  modify (λ w. record w { threads = update w.threads p (some (f t)) })

abbrev pub emit : Event → Cmd (Unit {0})
emit e = modify (λ w. record w { events = e ∷ w.events })

abbrev pub draw : List Ptr → World → Run Ptr
draw [] w = ok null (record w { memory = [] })
draw (p ∷ ps) w = ok p (record w { memory = ps })

abbrev pub malloc : Cmd Ptr
malloc w = draw w.memory w

abbrev pub draw_clone : List ℕ → World → Run ℕ
draw_clone [] w = ok minus_one (record w { clones = [] })
draw_clone (k ∷ ks) w = ok k (record w { clones = ks })

abbrev pub thread_self : Cmd Ptr
thread_self w = ok w.self w

-- `thread_errno = e`
abbrev pub set_errno : Errno → Cmd (Unit {0})
set_errno e = do thread ← thread_self; change_thread thread (λ t. record t { error = e })

abbrev pub td_set_state : Ptr → ThreadState → Cmd (Unit {0})
td_set_state thread st = change_thread thread (λ t. record t { state = st })

-- `stack_alloc` writes into the descriptor, which faults when malloc returned NULL, and asserts that mmap did
-- not fail.
unfoldable pub td_alloc : Cmd Ptr
td_alloc = do
  td ← malloc
  assert (not (td == null))
  stack ← malloc
  assert (not (stack == null))
  modify (λ w. record w {
    threads = update w.threads td (some (record w.indeterminate { stack = stack }));
  })
  pure td

abbrev pub td_free : Ptr → Cmd (Unit {0})
td_free thread = do t ← load_thread thread; emit (stack_unmapped t.stack)

abbrev pub td_init : Ptr → Ptr → Ptr → Cmd (Unit {0})
td_init thread st ar =
    change_thread thread
      λ t. record t { state = running; start = st; arg = ar; join_td = null; mem_lock = 1 }

-- CLONE_PARENT_SETTID stores the kernel thread id in the wait word when the call succeeds.
abbrev pub td_create : Ptr → Cmd ℕ
td_create thread = do
  ktid ← λ w. draw_clone w.clones w
  (if ktid == minus_one
      then pure tt
      else (do change_thread thread (λ t. record t { wait = ktid }); emit (cloned thread ktid)))
  change_thread thread (λ t. record t { ktid = ktid })
  pure ktid

-- sys_exit, and the return of the clone: CLONE_CHILD_CLEARTID clears the wait word and wakes a sleeper.
abbrev pub kernel_thread_ends : Ptr → Cmd (Unit {0})
kernel_thread_ends thread = do
  change_thread thread (λ t. record t { wait = 0 })
  emit (futex_woken thread)
  λ w. leave w

-- FUTEX_WAIT on the wait word: a sleep if the word holds `val`, else no wait at all.
abbrev pub futex_wait : Ptr → ℕ → Cmd (Unit {0})
futex_wait thread val = do
  t ← load_thread thread
  if t.wait == val then (do emit (futex_waited thread); λ w. swap w (λ w'. ok tt w')) else pure tt

abbrev pub td_lock : Ptr → Cmd (Unit {0})
unfolding lock_acquire
td_lock thread = do
  t ← load_thread thread
  lock' ← or_spins (lock_acquire t.mem_lock)
  change_thread thread (λ t. record t { mem_lock = lock' })

abbrev pub td_unlock : Ptr → Cmd (Unit {0})
unfolding lock_release
td_unlock thread = change_thread thread (λ t. record t { mem_lock = lock_release t.mem_lock })
