-- ===== src/Hybrid/Main/Ends.antt =====
-- How main ends: the main thread's own kernel thread runs the application's thread_main.
use libthreads_c.Base.{ℕ, ◌≡◌, some, List, ◌∷◌}
use libthreads_c.Hybrid.World.{
  Ptr, exited, Thread, World, Event, stack_unmapped, futex_woken, ok, Cmd, pure,
}
use libthreads_c.Hybrid.Facts.{on_leave}
use libthreads_c.Hybrid.Control.{one_one_start}
use libthreads_c.Hybrid.Pool.{Pool}

-- The main thread runs on its own kernel thread `ktid` to the end of its start routine, which returns a value.
abbrev pub runs_main : (Ptr → Ptr → Ptr) → ℕ → Ptr → Cmd (Unit {0})
runs_main routine ktid main_td w =
    on_leave
      (one_one_start (λ start arg. pure (routine start arg))
        (record w { self = main_td; tid = ktid }))
      λ g. ok tt (record g { self = w.self; tid = w.tid })

-- What is left at the end: the status 0, the dispatchers `pool`, the descriptor of the main thread, which holds
-- `value`, and its stack unmapped after its kernel thread was gone.
abbrev pub Finished : Ptr → Ptr → Ptr → Pool → ℕ × Pool → World → Type 0
Finished td stack value pool (status, pool') g =
    (status ≡ 0)
    × (pool' ≡ pool)
    × ((t : Thread) × (g.threads td ≡ some t) × (t.ret ≡ value) × (t.state ≡ exited))
    × ((es : List Event) × (g.events ≡ stack_unmapped stack ∷ futex_woken td ∷ es))
