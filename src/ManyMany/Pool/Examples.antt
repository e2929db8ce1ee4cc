-- ===== src/ManyMany/Pool/Examples.antt =====
-- Two dispatchers.
use libthreads_c.Base.{◌≡◌, refl, some, List, [], ◌∷◌, ◌++◌}
use libthreads_c.ManyMany.Pool.{Scheduler, Pool, mmsched_init, mmsched_deinit}
use libthreads_c.ManyMany.Pool.Lifetime.{births, ends, init-deinit}

abbrev two : List Scheduler
two =
    record { address = 100; stack = 200; ktid = 7 }
    ∷ record { address = 300; stack = 400; ktid = 8 }
    ∷ []

abbrev before : Pool
before = record { mmsched_enabled = 0; mmsched_list = []; coming = two; calls = [] }

init-deinit_example :
    (g : Pool) × (mmsched_init 2 before ≡ some g)
    × (g.mmsched_enabled ≡ 1)
    × (g.mmsched_list ≡ two)
    × (mmsched_deinit g ≡ record {
      mmsched_enabled = 0;
      mmsched_list = [];
      coming = [];
      calls = ([] ++ births two) ++ ends two;
    })
init-deinit_example = init-deinit two [] before (refl, refl, refl, (refl, refl, refl, tt)) refl
