-- ===== src/ManyMany/Control/Exit.antt =====
-- The end of a thread: thread_exit, the return of its start routine, and thread_yield.
use libthreads_c.Base.{◌≡◌, refl, false, some, ==-refl}
use libthreads_c.ManyMany.World.{Ptr, exited, success, Thread, World, pure, Swaps, Leaves, ◌>>◌}
use libthreads_c.ManyMany.Facts.{Live, SameThreads, SameLists}
use libthreads_c.ManyMany.Descr.{is_exited, is_joined, td_enable_intr}
use libthreads_c.ManyMany.Control.{thread_exit, many_many_start, thread_yield}

-- The running thread, whose descriptor was `c`, has exited with `ret`.
abbrev pub Left : World → Thread → Ptr → World → Type 0
Left w c ret g =
    (g.threads w.self ≡ some (record c { ret = ret; intr_off = 1; state = exited }))
    × SameThreads w g w.self w.self
    × SameLists w g

module _ (w : World) (c : Thread) (caller : Live w w.self c) where
  -- thread_exit leaves for good: the result is stored, the thread is marked as exited with its
  -- interrupts off, and nothing else changes.
  pub exit_for_good :
      (ret : Ptr)
      → is_exited c.state ≡ false
      → is_joined c.state ≡ false
      → Leaves (Left w c ret) (thread_exit ret w)
  unfolding thread_exit
  exit_for_good ret ne nj =
      simp (caller.not_null, caller.at, caller.ret, ne, nj, ==-refl)
        (refl, λ a n m. simp n refl, (refl, refl, refl))

  -- A start routine that returns a value without a switch ends its thread as thread_exit with
  -- that value does: both leave the same descriptor.
  pub start-exit :
      (value : Ptr)
      → is_exited c.state ≡ false
      → is_joined c.state ≡ false
      → Leaves
          (λ g. Leaves (λ g'. g'.threads w.self ≡ g.threads w.self) (thread_exit value w))
          (many_many_start (λ start arg. pure value) w)
  unfolding thread_exit many_many_start
  start-exit value ne nj = simp (caller.not_null, caller.at, caller.ret, ne, nj, ==-refl) refl

  -- A start routine that returns a value leaves it in the descriptor, as thread_exit with it does.
  pub start_goes :
      (routine : Ptr → Ptr → Ptr)
      → Leaves
          (Left w c (routine c.start c.arg))
          (many_many_start (λ start arg. pure (routine start arg)) w)
  unfolding many_many_start
  start_goes routine =
      simp (caller.not_null, caller.at, ==-refl) (refl, λ a n m. simp n refl, (refl, refl, refl))

  -- thread_yield gives the control back with the interrupts off, which keeps the thread's state;
  -- once it is resumed it turns them on and returns.
  pub yield_and_resume :
      Swaps
        (λ g.
          (g.threads w.self ≡ some (record c { intr_off = 1 }))
          × SameThreads w g w.self w.self
          × SameLists w g)
        (do td_enable_intr w.self; pure success)
        (thread_yield w)
  unfolding thread_yield
  yield_and_resume =
      simp (caller.not_null, caller.at, caller.curr, caller.ret, ==-refl)
        ((refl, λ a n m. simp n refl, (refl, refl, refl)), λ g. refl)
