-- ===== src/OneOne/Control/Examples.antt =====
-- A running thread at 100 and another one at 200; malloc and mmap return 1000 and 1300, clone 77.
use libthreads_c.Base.{refl, true, none, some, [], ◌∷◌, ◌+◌, update}
use libthreads_c.ManyMany.World.{other}
use libthreads_c.OneOne.World.{Ptr, World, Thread, running, exited, Returns}
use libthreads_c.OneOne.Control.Life.{LifeOver, create_and_join, join_gets_start_value}

abbrev plain : Thread
plain = record {
  ktid = 11;
  state = running;
  start = 500;
  arg = 600;
  ret = 0;
  wait = 11;
  error = other 0;
  join_td = 0;
  mem_lock = 1;
  stack = 900;
}

abbrev ended : Thread
ended = record plain { state = exited; wait = 0 }

abbrev scene : World
scene = record {
  self = 100;
  threads = update (update (λ a. some plain) 200 (some ended)) 100 (some plain);
  spinlocks = λ a. none;
  mutexes = λ a. none;
  words = λ a. 1;
  memory = 1000 ∷ 1300 ∷ [];
  clones = 77 ∷ [];
  indeterminate = plain;
  events = [];
}

abbrev summed : Ptr → Ptr → Ptr
summed start arg = start + arg

join_gets_start_value_example :
    Returns (LifeOver scene 1000 1300 (some 1120)) (create_and_join summed 510 610 true scene)
join_gets_start_value_example =
    join_gets_start_value scene 1000 1300 true summed refl refl refl 510 610 [] 77 [] plain refl
      refl refl refl refl refl refl refl
