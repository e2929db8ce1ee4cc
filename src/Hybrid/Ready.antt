-- ===== src/Hybrid/Ready.antt =====
-- hybrid/src/mmrll.c: the list of ready threads and its lock.
use libthreads_c.Base.{Bool, true, false, List, [], ◌∷◌, ◌++◌}
use libthreads_c.Mods.Lock.{lock_init, lock_acquire, lock_release}
use libthreads_c.Hybrid.World.{
  Ptr, ok, fault, Cmd, pure, ◌>>=◌, ◌>>◌, modify, or_spins, load_thread,
}

unfoldable pub mmrll_init : Cmd (Unit {0})
unfolding lock_init
mmrll_init = modify (λ w. record w { mmrll = []; mmrll_lk = lock_init w.mmrll_lk })

-- The link is a member of the descriptor, so the descriptor is accessed.
unfoldable pub mmrll_enqueue : Ptr → Cmd (Unit {0})
mmrll_enqueue thread = do
  load_thread thread
  modify (λ w. record w { mmrll = w.mmrll ++ thread ∷ [] })

abbrev pub dequeue_from : List Ptr → Cmd Ptr
dequeue_from [] w = fault
dequeue_from (x ∷ xs) w = ok x (record w { mmrll = xs })

-- The assert of list_dequeue fails on the empty list.
unfoldable pub mmrll_dequeue : Cmd Ptr
mmrll_dequeue = do thread ← λ w. dequeue_from w.mmrll w; load_thread thread; pure thread

abbrev pub null? : List Ptr → Bool
null? [] = true
null? (x ∷ xs) = false

unfoldable pub mmrll_is_empty : Cmd Bool
mmrll_is_empty w = ok (null? w.mmrll) w

unfoldable pub mmrll_lock : Cmd (Unit {0})
unfolding lock_acquire
mmrll_lock w =
    (do lock' ← or_spins (lock_acquire w.mmrll_lk); modify (λ w. record w { mmrll_lk = lock' })) w

unfoldable pub mmrll_unlock : Cmd (Unit {0})
unfolding lock_release
mmrll_unlock = modify (λ w. record w { mmrll_lk = lock_release w.mmrll_lk })
