-- ===== src/ManyMany/Examples/Mutexes.antt =====
-- The mutex and spinlock calls on concrete worlds.
use libthreads_c.Base.{◌≡◌, refl, some, List, [], ◌∷◌, ◌++◌}
use libthreads_c.ManyMany.World.{World, Mutex, SpinLock, Returns}
use libthreads_c.ManyMany.Facts.{Live}
use libthreads_c.ManyMany.Mutex.Handoff.{Op, lock, unlock, history, Good, after, woken}
use libthreads_c.ManyMany.Mutex.Fifo.{history-queue}
use libthreads_c.ManyMany.Examples.{plain, plain_mutex, plain_spin, scene, pair}

abbrev two : World
two = pair plain plain

abbrev caller : Live two 100 plain
caller = record { not_null = refl; at = refl; curr = refl; ret = refl }

abbrev with_mutex : Mutex → World
with_mutex m = scene plain plain m plain_spin []

abbrev theirs : Mutex
theirs = record { owner = 200; waitll = 250 ∷ []; mem_lock = 1 }

abbrev mine : Mutex
mine = record { owner = 100; waitll = 250 ∷ []; mem_lock = 1 }

-- 100 takes the mutex, 200 and 250 wait for it, and it is handed on twice.
abbrev contended : List Op
contended = lock 100 ∷ lock 200 ∷ lock 250 ∷ unlock ∷ unlock ∷ []

abbrev many : World
many = record two { threads = λ a. some plain }

history-queue_example :
    Returns
      (λ u g. Good 300 (after contended []) g × (g.mmrll ≡ many.mmrll ++ woken contended []))
      (history 300 contended many)
history-queue_example =
    history-queue 300 contended [] many
      (record {
        mutex = record { not_null = refl; at = refl };
        unlocked = refl;
        no_null = refl;
        distinct = tt;
        live = λ a n. (plain, record { not_null = n; at = refl; curr = refl; ret = refl });
      })
      (refl, refl, (refl, refl, (refl, refl, tt)))

abbrev held : SpinLock
held = record { owner = 200; lock = 0 }

abbrev beside_held : World
beside_held = scene plain plain plain_mutex held []
