-- ===== src/ManyMany/Main/Examples.antt =====
-- A program whose thread_main is at 510 and returns 42, with one dispatcher and with none.
use libthreads_c.Base.{◌^◌, ◌-◌, ◌≡◌, refl, none, some, [], ◌∷◌, update}
use libthreads_c.ManyMany.World.{Ptr, World, spins}
use libthreads_c.ManyMany.Facts.{Holds}
use libthreads_c.ManyMany.Examples.{plain}
use libthreads_c.ManyMany.Pool.{Scheduler, Pool}
use libthreads_c.ManyMany.Main.{main}
use libthreads_c.ManyMany.Main.Ends.{first_dispatches, program_waits_on}

-- What the FS register of the first kernel thread points to, at 100, is read as a descriptor.
abbrev before : World
before = record {
  self = 100;
  tid = 9;
  threads = update (λ a. none) 100 (some plain);
  spinlocks = λ a. none;
  mutexes = λ a. none;
  words = λ a. 0;
  mmrll = [];
  mmrll_lk = 0;
  nxt_utid = 4;
  nxt_utid_lk = 0;
  memory = 1000 ∷ 1100 ∷ 1200 ∷ 1300 ∷ [];
  indeterminate = plain;
  events = [];
}

abbrev one : Scheduler
one = record { address = 2000; stack = 2100; ktid = 77 }

abbrev nothing_made : Pool
nothing_made = record { mmsched_enabled = 0; mmsched_list = []; coming = one ∷ []; calls = [] }

abbrev forty_two : Ptr → Ptr → Ptr
forty_two start arg = 42

before-Holds : Holds before 100 plain
before-Holds = record { not_null = refl; at = refl }

program_waits_on_example :
    main 2
      (2 ^ 32 - 1)
      510
      (λ scheds main_td. first_dispatches 3000 forty_two scheds.mmsched_list)
      nothing_made
      before
    ≡ spins
program_waits_on_example =
    program_waits_on before plain 2 (2 ^ 32 - 1) 510 nothing_made refl 1000 1100 1200 1300 3000 []
      forty_two before-Holds refl refl refl refl refl refl refl
