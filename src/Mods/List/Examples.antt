-- ===== src/Mods/List/Examples.antt =====
-- The list on a concrete heap: every address but NULL holds an unlinked member.
use libthreads_c.Base.{◌≡◌, refl, some, List, [], ◌∷◌, arith}
use libthreads_c.Mods.List.{null, LinkedList, Links}
use libthreads_c.Mods.List.Chain.{IsList, member}
use libthreads_c.Mods.List.Queue.{Op, enqueue, dequeue, run, run-queue}

abbrev unlinked : Links
unlinked a = some (member null null)

abbrev empty : LinkedList
empty = record { head = null; tail = null }

abbrev ops : List Op
ops = enqueue 8 ∷ enqueue 16 ∷ dequeue ∷ enqueue 24 ∷ dequeue ∷ []

run-queue_example :
    (l : LinkedList) × (g : Links) × (run ops empty unlinked ≡ some ((8 ∷ 16 ∷ [], l), g))
    × IsList g l (24 ∷ [])
run-queue_example =
    run-queue ops unlinked empty [] (λ a ne. refl) (record { chain = refl; tail = refl })
      (ground arith, refl, (ground arith, refl, (ground arith, refl, tt)))
