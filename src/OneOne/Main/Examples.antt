-- ===== src/OneOne/Main/Examples.antt =====
-- A program whose thread_main is at 510 and returns 42.
use libthreads_c.Base.{none, [], ◌∷◌}
use libthreads_c.ManyMany.World.{other}
use libthreads_c.OneOne.World.{Ptr, World, Thread, running}

abbrev garbage : Thread
garbage = record {
  ktid = 1;
  state = running;
  start = 2;
  arg = 3;
  ret = 4;
  wait = 5;
  error = other 6;
  join_td = 7;
  mem_lock = 8;
  stack = 9;
}

abbrev fresh : World
fresh = record {
  self = 0;
  threads = λ a. none;
  spinlocks = λ a. none;
  mutexes = λ a. none;
  words = λ a. 0;
  memory = 1000 ∷ 1300 ∷ [];
  clones = 77 ∷ [];
  indeterminate = garbage;
  events = [];
}

abbrev forty_two : Ptr → Ptr → Ptr
forty_two start arg = 42
