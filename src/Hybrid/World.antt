-- ===== src/Hybrid/World.antt =====
-- hybrid/src/thread_descr.h (`struct Thread`, its states and types), mmrll.c and thread_cntl.c (the
-- globals): the state that the hybrid library's functions share, and the commands that change it.
-- Pointers, error numbers and statuses are those of many-many, whose interface this library extends. A
-- swap is either a switch to the dispatcher or a wait in the kernel, which the latest event tells apart.
use libthreads_c.Base.{ℕ, Bool, Option, none, some, List, [], ◌∷◌, ◌==◌, if◌then◌else◌, update}
use libthreads_c.Mods.Timer.{Timer}
use libthreads_c.Mods.Utils.{minus_one}
pub use libthreads_c.Base.Outcome.{
  Outcome, ok, swap, leave, spins, fault, pure, or_spins, or_faults, and_then, ◌>>=◌, ◌>>◌, modify,
  assert, Returns, Swaps, Leaves, Returns-mono, Returns-bind,
}
pub use libthreads_c.ManyMany.World.{
  Ptr, null, Errno, einval, eagain, ebusy, eacces, edeadlk, Status, fail, success, SpinLock,
}

pub data ThreadState : Type 0 where
  running exited joined wait_join : ThreadState

-- The members of a many-many thread. `stack` is `curr_cxt->uc_stack.ss_sp`.
pub record Contexts : Type 0 where
  pub curr_cxt : Ptr
  pub ret_cxt : Ptr
  pub stack : Ptr
  pub pend_sig : ℕ
  pub intr_off : ℕ
  pub timer : Timer

-- The type of a thread, with the members of the union that belong to it. An access to the other type's
-- members is a fault.
pub data Members : Type 0 where
  one_one : (ktid : ℕ) (stack : Ptr) → Members
  many_many : Contexts → Members

pub record Thread : Type 0 where
  pub utid : ℕ
  pub state : ThreadState
  pub wait : ℕ
  pub start : Ptr
  pub arg : Ptr
  pub ret : Ptr
  pub error : Errno
  pub join_td : Ptr
  pub wait_join_td : Ptr
  pub mem_lock : ℕ
  pub members : Members

-- What the library asks of the system, latest first.
pub data Event : Type 0 where
  timer_started timer_stopped : Ptr → Event
  signal_sent : (tid signo : ℕ) → Event
  stack_unmapped freed : Ptr → Event
  sigprocmask : (how : ℕ) (set : Option (ℕ → Bool)) → Event
  cloned : (thread ktid : ℕ) → Event
  futex_waited futex_woken : Ptr → Event
  yielded : Event

-- As in many-many. `clones` holds what the coming calls of clone return, and `garbage` is the contents
-- of memory that no code has written.
pub record World : Type 0 where
  pub self : Ptr
  pub tid : ℕ
  pub threads : Ptr → Option Thread
  pub spinlocks : Ptr → Option SpinLock
  pub words : Ptr → ℕ
  pub mmrll : List Ptr
  pub mmrll_lk : ℕ
  pub nxt_utid : ℕ
  pub nxt_utid_lk : ℕ
  pub memory : List Ptr
  pub clones : List ℕ
  pub indeterminate : Thread
  pub garbage : ℕ
  pub events : List Event

abbrev pub Run : Type 0 → Type 0
Run = Outcome World

abbrev pub Cmd : Type 0 → Type 0
Cmd A = World → Run A

abbrev pub or_fault : {A : Type 0} → Ptr → Option A → Cmd A
or_fault p none w = fault
or_fault p (some a) w = if p == null then fault else ok a w

abbrev pub load_thread : Ptr → Cmd Thread
load_thread p w = or_fault p (w.threads p) w

abbrev pub put_thread : Ptr → Option Thread → World → World
put_thread p c w = record w { threads = update w.threads p c }

abbrev pub change_thread : Ptr → (Thread → Thread) → Cmd (Unit {0})
change_thread p f = do t ← load_thread p; modify (put_thread p (some (f t)))

abbrev pub load_spin : Ptr → Cmd SpinLock
load_spin p w = or_fault p (w.spinlocks p) w

abbrev pub put_spin : Ptr → Option SpinLock → World → World
put_spin p c w = record w { spinlocks = update w.spinlocks p c }

abbrev pub change_spin : Ptr → (SpinLock → SpinLock) → Cmd (Unit {0})
change_spin p f = do s ← load_spin p; modify (put_spin p (some (f s)))

-- The members of a many-many thread, read and updated.
abbrev pub contexts_of : Members → Cmd Contexts
contexts_of (one_one ktid stack) w = fault
contexts_of (many_many m) w = ok m w

abbrev pub load_contexts : Ptr → Cmd Contexts
load_contexts p = do t ← load_thread p; contexts_of t.members

abbrev pub change_contexts : Ptr → (Contexts → Contexts) → Cmd (Unit {0})
change_contexts p f = do
  t ← load_thread p
  m ← contexts_of t.members
  modify (put_thread p (some (record t { members = many_many (f m) })))

abbrev pub emit : Event → Cmd (Unit {0})
emit e = modify (λ w. record w { events = e ∷ w.events })

-- The next result of malloc or mmap, and of clone.
abbrev pub draw : List Ptr → World → Run Ptr
draw [] w = ok null (record w { memory = [] })
draw (p ∷ ps) w = ok p (record w { memory = ps })

abbrev pub malloc : Cmd Ptr
malloc w = draw w.memory w

abbrev pub draw_clone : List ℕ → World → Run ℕ
draw_clone [] w = ok minus_one (record w { clones = [] })
draw_clone (k ∷ ks) w = ok k (record w { clones = ks })

abbrev pub clone : Cmd ℕ
clone w = draw_clone w.clones w
