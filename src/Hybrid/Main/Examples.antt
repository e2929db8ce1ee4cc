-- ===== src/Hybrid/Main/Examples.antt =====
-- A program whose thread_main is at 510 and returns 42, with one dispatcher.
use libthreads_c.Base.{[], ◌∷◌}
use libthreads_c.ManyMany.Pool.{Scheduler}
use libthreads_c.Hybrid.World.{Ptr, World}
use libthreads_c.Hybrid.Examples.{kernel_thread, scene}
use libthreads_c.Hybrid.Pool.{Pool}

abbrev before : World
before = scene kernel_thread kernel_thread [] (1000 ∷ 1100 ∷ []) (77 ∷ [])

abbrev one : Scheduler
one = record { address = 2000; stack = 2100; ktid = 78 }

abbrev nothing_made : Pool
nothing_made = record { mmsched_enabled = 0; mmsched_list = []; coming = one ∷ []; calls = [] }

abbrev forty_two : Ptr → Ptr → Ptr
forty_two start arg = 42
