-- ===== src/Hybrid/Examples/Protocols.antt =====
-- The joins across the types, and the end of a thread, on concrete worlds.
use libthreads_c.Base.{◌≡◌, refl, true, some, [], ◌∷◌}
use libthreads_c.Hybrid.World.{
  World, Thread, Returns, Leaves, exited, pure, Ptr, Cmd, ◌>>◌, eagain, put_thread,
}
use libthreads_c.Hybrid.Descr.{set_errno}
use libthreads_c.Hybrid.Control.{one_one_start, thread_exit}
use libthreads_c.Hybrid.Control.Exit.{
  Ended, Joiner, one_one_joiner, one_one_exits, start-thread_exit,
}
use libthreads_c.Hybrid.Control.Protocol.{sleep_and_exit, switch_and_exit, JoinDone}
use libthreads_c.Hybrid.Control.Protocol.Sleep.{one_one_joins_many_many}
use libthreads_c.Hybrid.Control.Protocol.Switch.{many_many_joins_one_one}
use libthreads_c.Hybrid.Examples.{contexts, kernel_thread, user_thread, scene, pair}

abbrev sleeper : World
sleeper = scene kernel_thread user_thread (200 ∷ []) [] []

abbrev switcher : World
switcher = pair user_thread kernel_thread

one_one_joins_many_many_example :
    Returns (JoinDone sleeper 200 (some 42)) (sleep_and_exit 5 12 200 true 42 sleeper)
one_one_joins_many_many_example =
    one_one_joins_many_many sleeper 200 5 12 true 42 refl refl user_thread kernel_thread contexts 11
      950 (record { not_null = refl; at = refl }) refl
      (record { not_null = refl; at = refl; members_at = refl; curr = refl; ret_ = refl }) refl refl
      refl refl refl refl refl refl

many_many_joins_one_one_example :
    Returns (JoinDone switcher 200 (some 42)) (switch_and_exit 5 11 200 true 42 switcher)
many_many_joins_one_one_example =
    many_many_joins_one_one switcher 200 5 11 true 42 refl refl kernel_thread user_thread contexts
      950 (record { not_null = refl; at = refl; members_at = refl; curr = refl; ret_ = refl })
      (record { not_null = refl; at = refl }) refl refl refl refl refl refl refl refl

-- A thread that the other thread, of the type one-one, joins.
abbrev joined_kernel : Thread
joined_kernel = record kernel_thread { join_td = 200 }

abbrev two : World
two = pair joined_kernel kernel_thread

abbrev by_kernel : Joiner two joined_kernel
by_kernel = one_one_joiner kernel_thread 11 950 (record { not_null = refl; at = refl }) refl refl

one_one_exits_example : Leaves (Ended two joined_kernel by_kernel 42) (thread_exit 42 two)
one_one_exits_example =
    one_one_exits two joined_kernel 42 refl refl 11 950 by_kernel
      (record { not_null = refl; at = refl }) refl refl refl

-- A start routine that sets the thread's error number and returns 42.
abbrev sets_errno : Ptr → Ptr → Cmd Ptr
sets_errno start arg = do set_errno eagain; pure 42

start-thread_exit_example :
    one_one_start sets_errno two
    ≡ thread_exit 42 (put_thread 100 (some (record joined_kernel { error = eagain })) two)
start-thread_exit_example =
    start-thread_exit two joined_kernel (record { not_null = refl; at = refl }) sets_errno 42
      (put_thread 100 (some (record joined_kernel { error = eagain })) two)
      (record joined_kernel { error = eagain }) refl refl (record { not_null = refl; at = refl }) tt
      refl refl

abbrev leaver : Thread
leaver = record user_thread { join_td = 200; state = exited }

abbrev leaving : World
leaving = pair leaver kernel_thread

abbrev by_sleeper : Joiner leaving leaver
by_sleeper = one_one_joiner kernel_thread 11 950 (record { not_null = refl; at = refl }) refl refl
