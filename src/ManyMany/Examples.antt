-- ===== src/ManyMany/Examples.antt =====
-- Concrete worlds on which the theorems about many-many are applied: a running thread at 100,
-- another one at 200, a mutex at 300 and a spinlock at 400.
mod Threads
mod Mutexes
mod Scheduling
use libthreads_c.Base.{◌≡◌, refl, false, some, List, [], ◌==◌, update}
use libthreads_c.Mods.Timer.{timer_set}
use libthreads_c.ManyMany.World.{Ptr, running, other, Thread, SpinLock, Mutex, World}
use libthreads_c.ManyMany.Facts.{Live}

abbrev pub plain : Thread
plain = record {
  utid = 3;
  state = running;
  start = 500;
  arg = 600;
  ret = 0;
  wait = 1;
  pend_sig = 0;
  curr_cxt = 700;
  ret_cxt = 800;
  stack = 900;
  error = other 0;
  join_thread = 0;
  wait_for = 0;
  intr_off = 0;
  timer = timer_set 9 10;
  mem_lock = 1;
}

abbrev pub plain_mutex : Mutex
plain_mutex = record { owner = 0; waitll = []; mem_lock = 1 }

abbrev pub plain_spin : SpinLock
plain_spin = record { owner = 0; lock = 1 }

-- The world with the descriptors `c` at 100 and `t` at 200, the mutex `m`, the spinlock `s` and the
-- ready list `ready`.
abbrev pub scene : Thread → Thread → Mutex → SpinLock → List Ptr → World
scene c t m s ready = record {
  self = 100;
  tid = 9;
  threads = update (update (λ a. some plain) 200 (some t)) 100 (some c);
  spinlocks = λ a. some s;
  mutexes = λ a. some m;
  words = λ a. 1;
  mmrll = ready;
  mmrll_lk = 1;
  nxt_utid = 4;
  nxt_utid_lk = 1;
  memory = [];
  indeterminate = plain;
  events = [];
}

abbrev pub pair : Thread → Thread → World
pair c t = scene c t plain_mutex plain_spin []

pub plain-Live :
    (w : World) (p : Ptr) → (p == 0) ≡ false → w.threads p ≡ some plain → Live w p plain
plain-Live w p ne at = record { not_null = ne; at = at; curr = refl; ret = refl }
