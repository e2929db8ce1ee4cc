-- ===== src/Hybrid/Examples.antt =====
-- Concrete worlds on which the theorems about hybrid are applied: a running thread at 100 and another one
-- at 200, each of the one type or the other.
mod Calls
mod Protocols
use libthreads_c.Base.{ℕ, ◌≡◌, refl, some, List, [], update}
use libthreads_c.Mods.Timer.{timer_set}
use libthreads_c.ManyMany.World.{other}
use libthreads_c.Hybrid.World.{Ptr, running, Contexts, Members, one_one, many_many, Thread, World}

abbrev pub contexts : Contexts
contexts = record {
  curr_cxt = 700;
  ret_cxt = 800;
  stack = 900;
  pend_sig = 0;
  intr_off = 0;
  timer = timer_set 9 10;
}

abbrev pub thread_with : ℕ → Members → Thread
thread_with wait members = record {
  utid = 3;
  state = running;
  wait = wait;
  start = 500;
  arg = 600;
  ret = 0;
  error = other 0;
  join_td = 0;
  wait_join_td = 0;
  mem_lock = 1;
  members = members;
}

abbrev pub kernel_thread : Thread
kernel_thread = thread_with 11 (one_one 11 950)

abbrev pub user_thread : Thread
user_thread = thread_with 1 (many_many contexts)

-- The world with the descriptors `c` at 100 and `t` at 200 and the ready list `ready`; the coming results
-- of malloc and mmap are `memory`, those of clone `clones`.
abbrev pub scene : Thread → Thread → List Ptr → List Ptr → List ℕ → World
scene c t ready memory clones = record {
  self = 100;
  tid = 9;
  threads = update (update (λ a. some kernel_thread) 200 (some t)) 100 (some c);
  spinlocks = λ a. some (record { owner = 0; lock = 1 });
  words = λ a. 1;
  mmrll = ready;
  mmrll_lk = 1;
  nxt_utid = 4;
  nxt_utid_lk = 1;
  memory = memory;
  clones = clones;
  indeterminate = kernel_thread;
  garbage = 0;
  events = [];
}

abbrev pub pair : Thread → Thread → World
pair c t = scene c t [] [] []
