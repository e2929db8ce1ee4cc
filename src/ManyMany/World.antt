-- ===== src/ManyMany/World.antt =====
-- The state that the library's functions share, and the commands that change it.
-- many-many/src/thread_descr.h (`struct Thread` and its states), thread_sync.h (`struct
-- ThreadSpinLock`, `struct ThreadMutex`), mmrll.c and thread_cntl.c (the globals).
-- A pointer is an address, NULL is 0, and an address that holds no object is freed or was never
-- allocated: an access through it is a fault. A list of threads (`mmrll`, `waitll`) is the queue of
-- addresses of Mods/List/Queue.
use libthreads_c.Base.{ℕ, Bool, Option, none, some, List, [], ◌∷◌, ◌==◌, if◌then◌else◌, update}
use libthreads_c.Mods.Timer.{Timer}
pub use libthreads_c.Base.Outcome.{
  Outcome, ok, swap, leave, spins, fault, pure, or_spins, or_faults, and_then, ◌>>=◌, ◌>>◌, modify,
  assert, Returns, Swaps, Leaves, Returns-mono, Returns-bind,
}

abbrev pub Ptr : Type 0
Ptr = ℕ

abbrev pub null : Ptr
null = 0

pub data ThreadState : Type 0 where
  running exited joined wait_join wait_mutex : ThreadState

-- The error numbers of errno.h that the library stores, and any other value.
pub data Errno : Type 0 where
  einval eagain edeadlk ebusy eacces : Errno
  other : ℕ → Errno

-- THREAD_FAIL and THREAD_SUCCESS
pub data Status : Type 0 where
  fail success : Status

-- `stack` is `curr_cxt->uc_stack.ss_sp`.
pub record Thread : Type 0 where
  pub utid : ℕ
  pub state : ThreadState
  pub start : Ptr
  pub arg : Ptr
  pub ret : Ptr
  pub wait : ℕ
  pub pend_sig : ℕ
  pub curr_cxt : Ptr
  pub ret_cxt : Ptr
  pub stack : Ptr
  pub error : Errno
  pub join_thread : Ptr
  pub wait_for : Ptr
  pub intr_off : ℕ
  pub timer : Timer
  pub mem_lock : ℕ

pub record SpinLock : Type 0 where
  pub owner : Ptr
  pub lock : ℕ

pub record Mutex : Type 0 where
  pub owner : Ptr
  pub waitll : List Ptr
  pub mem_lock : ℕ

-- What the library asks of the system, latest first.
pub data Event : Type 0 where
  timer_started timer_stopped : Ptr → Event
  signal_sent : (tid signo : ℕ) → Event
  stack_unmapped freed : Ptr → Event
  sigprocmask : (how : ℕ) (set : Option (ℕ → Bool)) → Event

-- `words` are the application's `ThreadOnce` objects. `self` is the FS register of the kernel
-- thread that runs, `tid` its kernel thread id. `memory` holds what the coming calls of malloc
-- and mmap return, 0 for a failure; `indeterminate` is the contents of a descriptor fresh from
-- malloc.
pub record World : Type 0 where
  pub self : Ptr
  pub tid : ℕ
  pub threads : Ptr → Option Thread
  pub spinlocks : Ptr → Option SpinLock
  pub mutexes : Ptr → Option Mutex
  pub words : Ptr → ℕ
  pub mmrll : List Ptr
  pub mmrll_lk : ℕ
  pub nxt_utid : ℕ
  pub nxt_utid_lk : ℕ
  pub memory : List Ptr
  pub indeterminate : Thread
  pub events : List Event

-- How a piece of code ends, and a command.
abbrev pub Run : Type 0 → Type 0
Run = Outcome World

abbrev pub Cmd : Type 0 → Type 0
Cmd A = World → Run A

-- `p->…` for a descriptor, a spinlock and a mutex.
abbrev pub or_fault : {A : Type 0} → Ptr → Option A → Cmd A
or_fault p none w = fault
or_fault p (some a) w = if p == null then fault else ok a w

abbrev pub load_thread : Ptr → Cmd Thread
load_thread p w = or_fault p (w.threads p) w

abbrev pub put_thread : Ptr → Option Thread → World → World
put_thread p c w = record w { threads = update w.threads p c }

-- An update of one descriptor.
abbrev pub change_thread : Ptr → (Thread → Thread) → Cmd (Unit {0})
change_thread p f = do t ← load_thread p; modify (put_thread p (some (f t)))

abbrev pub load_mutex : Ptr → Cmd Mutex
load_mutex p w = or_fault p (w.mutexes p) w

abbrev pub put_mutex : Ptr → Option Mutex → World → World
put_mutex p c w = record w { mutexes = update w.mutexes p c }

abbrev pub change_mutex : Ptr → (Mutex → Mutex) → Cmd (Unit {0})
change_mutex p f = do m ← load_mutex p; modify (put_mutex p (some (f m)))

abbrev pub load_spin : Ptr → Cmd SpinLock
load_spin p w = or_fault p (w.spinlocks p) w

abbrev pub put_spin : Ptr → Option SpinLock → World → World
put_spin p c w = record w { spinlocks = update w.spinlocks p c }

abbrev pub change_spin : Ptr → (SpinLock → SpinLock) → Cmd (Unit {0})
change_spin p f = do s ← load_spin p; modify (put_spin p (some (f s)))

abbrev pub emit : Event → Cmd (Unit {0})
emit e = modify (λ w. record w { events = e ∷ w.events })

-- The next result of malloc or mmap.
abbrev pub draw : List Ptr → World → Run Ptr
draw [] w = ok null (record w { memory = [] })
draw (p ∷ ps) w = ok p (record w { memory = ps })

abbrev pub malloc : Cmd Ptr
malloc w = draw w.memory w
