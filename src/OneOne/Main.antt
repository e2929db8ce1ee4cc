-- ===== src/OneOne/Main.antt =====
-- one-one/src/thread_main.c: the entry point of the program. `main_start` is the address of the application's
-- thread_main, and `others` what the other kernel threads do while main waits.
mod Examples
use libthreads_c.Base.{
  ℕ, ◌≡◌, sym, Bool, true, Option, none, some, List, ◌∷◌, not, ◌==◌, ==-refl, ◌∙◌, if◌then◌else◌,
}
use libthreads_c.Base.Outcome.{on_leave}
use libthreads_c.ManyMany.Descr.{is_joined}
use libthreads_c.OneOne.World.{
  Ptr, null, exited, Thread, World, Event, stack_unmapped, futex_woken, cloned, ok, spins, Cmd,
  pure, ◌>>=◌, ◌>>◌, load_thread, td_free,
}
use libthreads_c.OneOne.Control.{thread_create, one_one_start}

-- `while (!td_is_over(main_td));` after what the others did.
abbrev pub wait_over : Ptr → Cmd (Unit {0})
wait_over main_td = do t ← load_thread main_td; if t.wait == 0 then pure tt else λ w. spins

unfoldable pub main : Ptr → (Ptr → Cmd (Unit {0})) → Cmd ℕ
main main_start others = do
  (status, main_td) ← thread_create true main_start null
  others main_td
  wait_over main_td
  t ← load_thread main_td
  (if not (is_joined t.state) then td_free main_td else pure tt)
  pure 0

-- The main thread runs the application's thread_main, a function of its arguments, on its own kernel thread.
abbrev pub runs_main : (Ptr → Ptr → Ptr) → Ptr → Cmd (Unit {0})
runs_main routine main_td w =
    on_leave (one_one_start (λ start arg. pure (routine start arg)) (record w { self = main_td }))
      λ g. ok tt (record g { self = w.self })

-- The status is 0, the main thread has exited with `value`, and the last thing that was asked of the system is
-- to unmap its stack.
abbrev pub Finished : Ptr → Ptr → Ptr → ℕ → World → Type 0
Finished main_td stack value status g =
    (status ≡ 0)
    × ((t : Thread) × (g.threads main_td ≡ some t)
        × (t.ret ≡ value)
        × (t.state ≡ exited)
        × (t.wait ≡ 0))
    × ((es : List Event) × (g.events ≡ stack_unmapped stack ∷ futex_woken main_td ∷ es))

-- The rest of main, once the main thread has ended with the descriptor `t`.
abbrev rest_of_main : Ptr → Cmd ℕ
rest_of_main main_td = do
  wait_over main_td
  t ← load_thread main_td
  (if not (is_joined t.state) then td_free main_td else pure tt)
  pure 0
