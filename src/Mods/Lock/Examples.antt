-- ===== src/Mods/Lock/Examples.antt =====
-- Two threads on a lock: 3 is in its critical section, 4 goes round the loop.
use libthreads_c.Base.{refl}
use libthreads_c.Mods.Lock.{lock_init, lock_try}
use libthreads_c.Mods.Lock.Threads.{
  Users, fresh, enter_loop, try_round, call, round, Reachable, start, next,
}
use libthreads_c.Mods.Lock.Exclusion.{Exclusive, Reachable-Exclusive}

abbrev contended : Users
contended = try_round 4 (enter_loop 4 (try_round 3 (enter_loop 3 (fresh 9))))

contended-Reachable : Reachable 9 contended
unfolding fresh try_round lock_init lock_try
contended-Reachable =
    next _ _ (next _ _ (next _ _ (next _ _ start (call 3 refl)) (round 3 refl)) (call 4 refl))
      (round 4 refl)

Reachable-Exclusive_example : Exclusive contended
Reachable-Exclusive_example = Reachable-Exclusive 9 contended contended-Reachable
