-- ===== src/Hybrid/Examples/Calls.antt =====
-- Joins, creations and signals on concrete worlds.
use libthreads_c.Base.{◌≡◌, refl, true, some, [], ◌∷◌}
use libthreads_c.Mods.Utils.{minus_one}
use libthreads_c.Hybrid.World.{World, Thread, Returns, eagain, fail, exited}
use libthreads_c.Hybrid.Facts.{SameThreads, SameLists}
use libthreads_c.Hybrid.Control.{thread_create}
use libthreads_c.Hybrid.Control.Create.{Numbered, new_one_one, create_clone_fails}
use libthreads_c.Hybrid.Examples.{kernel_thread, user_thread, scene, pair}

abbrev claimed : Thread
claimed = record kernel_thread { join_td = 250 }

abbrev beside_claimed : World
beside_claimed = pair user_thread claimed

abbrev finished : Thread
finished = record user_thread { state = exited; wait = 0; ret = 77 }

abbrev beside_finished : World
beside_finished = pair kernel_thread finished

abbrev for_kernel : World
for_kernel = scene user_thread kernel_thread [] (1000 ∷ 1300 ∷ []) (77 ∷ [])

abbrev no_clone : World
no_clone = scene user_thread kernel_thread [] (1000 ∷ 1300 ∷ []) (minus_one ∷ [])

create_clone_fails_example :
    Returns
      (λ (status, handle) g.
        (status ≡ fail)
        × (handle ≡ 1000)
        × (g.threads 1000 ≡ some (new_one_one no_clone 510 610 11 minus_one 1300))
        × (g.threads 100 ≡ some (record user_thread { error = eagain }))
        × (g.events ≡ [])
        × Numbered no_clone g
        × SameThreads no_clone g 1000 100
        × SameLists no_clone g)
      (thread_create true 510 610 0 no_clone)
create_clone_fails_example =
    create_clone_fails no_clone user_thread 510 610 1000 1300 [] 77 []
      (record { not_null = refl; at = refl }) refl refl refl refl refl refl refl refl

abbrev for_user : World
for_user = scene user_thread kernel_thread [] (1000 ∷ 1100 ∷ 1200 ∷ 1300 ∷ []) []

abbrev beside_user : World
beside_user = pair kernel_thread user_thread
