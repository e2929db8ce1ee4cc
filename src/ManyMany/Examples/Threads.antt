-- ===== src/ManyMany/Examples/Threads.antt =====
-- thread_create, thread_join, thread_exit, thread_yield, thread_once and thread_kill on concrete
-- worlds.
use libthreads_c.Base.{refl, true, false, some, [], ◌∷◌, arith, update}
use libthreads_c.ManyMany.World.{World, Thread, Returns, einval, fail, success, exited}
use libthreads_c.ManyMany.Facts.{Live}
use libthreads_c.ManyMany.Control.{thread_once_init, thread_join}
use libthreads_c.ManyMany.Control.Join.{RefusedFor, taken, join_errors}
use libthreads_c.ManyMany.Control.Once.{calls, Ran, calls_once}
use libthreads_c.ManyMany.Control.Protocol.{join_and_exit, JoinDone, join_gets_exit_value}
use libthreads_c.ManyMany.Signal.{thread_kill}
use libthreads_c.ManyMany.World.{◌>>◌}
use libthreads_c.ManyMany.Sched.{prepare}
use libthreads_c.ManyMany.Signal.Delivery.{Delivered, kill_delivers}
use libthreads_c.ManyMany.Examples.{plain, plain_mutex, plain_spin, scene, pair}

abbrev two : World
two = pair plain plain

abbrev caller : Live two 100 plain
caller = record { not_null = refl; at = refl; curr = refl; ret = refl }

abbrev target : Live two 200 plain
target = record { not_null = refl; at = refl; curr = refl; ret = refl }

abbrev finished : Thread
finished = record plain { state = exited; wait = 0; ret = 77 }

abbrev beside_finished : World
beside_finished = pair plain finished

abbrev claimed : Thread
claimed = record plain { join_thread = 250 }

abbrev beside_claimed : World
beside_claimed = pair plain claimed

abbrev ready_target : World
ready_target = scene plain plain plain_mutex plain_spin (200 ∷ [])

abbrev with_memory : World
with_memory = record two { memory = 1000 ∷ 1100 ∷ 1200 ∷ 1300 ∷ [] }

join_gets_exit_value_example :
    Returns (JoinDone ready_target 200 (some 42)) (join_and_exit 5 200 true 42 ready_target)
join_gets_exit_value_example =
    join_gets_exit_value ready_target 200 5 true 42 refl refl plain plain
      (record { not_null = refl; at = refl; curr = refl; ret = refl })
      (record { not_null = refl; at = refl; curr = refl; ret = refl }) refl refl refl refl refl refl
      refl refl

abbrev fresh : World
fresh = record two { words = update (λ a. 0) 50 thread_once_init }

calls_once_example :
    Returns (Ran 60 (fail ∷ success ∷ fail ∷ []) 1) (calls 50 60 (false ∷ true ∷ true ∷ []) fresh)
calls_once_example =
    calls_once 50 60 refl refl refl (false ∷ true ∷ true ∷ []) fresh plain
      (record { not_null = refl; at = refl }) refl

join_errors_example :
    Returns (RefusedFor beside_claimed plain einval 0) (thread_join 200 true beside_claimed)
join_errors_example =
    join_errors beside_claimed 200 claimed plain true
      (record { not_null = refl; at = refl; curr = refl; ret = refl }) einval 0
      (taken (record { not_null = refl; at = refl; curr = refl; ret = refl }) refl refl refl refl
        refl)

kill_delivers_example :
    Returns (Delivered two 200 plain 10) ((do thread_kill 200 10; prepare 200) two)
kill_delivers_example =
    kill_delivers two 200 plain 10 (record { not_null = refl; at = refl }) refl refl (omega arith)
      (omega arith) (omega arith)
