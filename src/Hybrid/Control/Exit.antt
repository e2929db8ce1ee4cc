-- ===== src/Hybrid/Control/Exit.antt =====
-- The end of a thread of either type: thread_exit, the return of its start routine, and thread_yield.
use libthreads_c.Base.{
  ℕ, ◌≡◌, refl, true, false, some, [], ◌∷◌, ◌++◌, inl, inr, ==-refl, ◌==◌, subst, Bool,
  if◌then◌else◌,
}
use libthreads_c.Mods.Lock.{lock_acquire, lock_release}
use libthreads_c.Hybrid.World.{
  Ptr, null, exited, success, Contexts, Members, one_one, many_many, Thread, World, futex_woken,
  yielded, pure, Swaps, Leaves, ◌>>◌, Cmd, ok,
}
use libthreads_c.Hybrid.Facts.{
  Holds, Live, SameThreads, SameLists, set_intr, Allocated, members-cases,
}
use libthreads_c.Hybrid.Descr.{is_exited, is_joined, td_mm_enable_intr}
use libthreads_c.Hybrid.Control.{thread_exit, one_one_start, many_many_start, thread_yield}

-- The running many-many thread, whose descriptor was `c`, has exited with `ret` and left its context for
-- good. A dispatcher does the rest.
abbrev pub Left : World → Thread → Ptr → World → Type 0
Left w c ret g =
    (g.threads w.self
      ≡ some (record c { ret = ret; state = exited; members = set_intr 1 c.members }))
    × SameThreads w g w.self w.self
    × SameLists w g

-- Who joins a one-one thread: nobody, a many-many thread or a one-one thread.
pub data Joiner (w : World) (c : Thread) : Type 0 where
  nobody : (c.join_td == null) ≡ true → Joiner w c
  many_many_joiner :
      (j : Thread) (x : Contexts)
      → Live w c.join_td j x
      → (c.join_td == w.self) ≡ false
      → Joiner w c
  one_one_joiner :
      (j : Thread) (ktid : ℕ) (stack : Ptr)
      → Holds w c.join_td j
      → j.members ≡ one_one ktid stack
      → (c.join_td == w.self) ≡ false
      → Joiner w c

module _ {w : World} {c : Thread} where
  -- The member lock after the exit: it stays taken for a one-one joiner.
  abbrev pub lock_left : Joiner w c → ℕ
  lock_left (nobody e) = 1
  lock_left (many_many_joiner j x live other) = 1
  lock_left (one_one_joiner j ktid stack at e other) = 0

  -- Only a many-many joiner is made ready by the thread itself.
  abbrev pub made_ready : Joiner w c → Bool
  made_ready (nobody e) = false
  made_ready (many_many_joiner j x live other) = true
  made_ready (one_one_joiner j ktid stack at e other) = false

-- The running one-one thread, whose descriptor was `c`, has ended with `ret`: its wait word is clear, and
-- the kernel has woken a sleeper on it.
abbrev pub Ended : (w : World) (c : Thread) → Joiner w c → Ptr → World → Type 0
Ended w c joiner ret g =
    (g.threads w.self
      ≡ some (record c { ret = ret; state = exited; wait = 0; mem_lock = lock_left joiner }))
    × (g.mmrll ≡ (if made_ready joiner then w.mmrll ++ c.join_td ∷ [] else w.mmrll))
    × (g.mmrll_lk ≡ 1)
    × (g.events ≡ futex_woken w.self ∷ w.events)
    × SameThreads w g w.self w.self

module _ (w : World) (c : Thread) (ret : Ptr) (ne : is_exited c.state ≡ false)
    (nj : is_joined c.state ≡ false) where
  -- thread_exit of a many-many thread stores the result, turns its interrupts off, marks it as exited and
  -- leaves for good; nothing else changes, its lock and its wait word included.
  pub many_many_exits :
      (x : Contexts) → Live w w.self c x → Leaves (Left w c ret) (thread_exit ret w)
  unfolding thread_exit
  many_many_exits x caller =
      simp (caller.not_null, caller.at, caller.members_at, caller.ret_, ne, nj, ==-refl)
        (refl, λ a n m. simp n refl, (refl, refl, refl))

  -- thread_exit of a one-one thread ends its kernel thread after it has put a many-many joiner at the end
  -- of the ready list. Its member lock is free then, but for a one-one joiner: then it stays taken.
  pub one_one_exits :
      (ktid : ℕ) (stack : Ptr) (joiner : Joiner w c)
      → Holds w w.self c
      → c.members ≡ one_one ktid stack
      → c.mem_lock ≡ 1
      → w.mmrll_lk ≡ 1
      → Leaves (Ended w c joiner ret) (thread_exit ret w)
  unfolding thread_exit lock_acquire lock_release
  one_one_exits k s (nobody e) caller kind free list_free =
      simp (caller.not_null, caller.at, kind, free, list_free, e, ne, nj, ==-refl)
        (refl, refl, refl, refl, λ a n m. simp n refl)
  one_one_exits k s (many_many_joiner j x live other) caller kind free list_free =
      simp
        (
          caller.not_null, caller.at, kind, free, list_free, ne, nj, other, live.not_null, live.at,
          live.members_at, ==-refl,
        )
        (refl, refl, refl, refl, λ a n m. simp n refl)
  one_one_exits k s (one_one_joiner j k' s' at e other) caller kind free list_free =
      simp
        (
          caller.not_null, caller.at, kind, free, list_free, ne, nj, other, at.not_null, at.at, e,
          ==-refl,
        )
        (refl, refl, refl, refl, λ a n m. simp n refl)

-- The function in which a thread starts, by its type.
abbrev start_of : Members → (Ptr → Ptr → Cmd Ptr) → Cmd (Unit {0})
start_of (one_one ktid stack) = one_one_start
start_of (many_many m) = many_many_start

module _ (w : World) (c : Thread) (caller : Holds w w.self c) where
  -- A start routine that returns a value without a switch, whatever else it has done to the world, while its thread
  -- goes on to run and is by its state neither exited nor joined, ends a thread of either type exactly as
  -- thread_exit with that value does where the routine returns.
  pub start-thread_exit :
      (routine : Ptr → Ptr → Cmd Ptr) (value : Ptr) (v : World) (c' : Thread)
      → routine c.start c.arg w ≡ ok value v
      → v.self ≡ w.self
      → Holds v w.self c'
      → Allocated c'.members
      → is_exited c'.state ≡ false
      → is_joined c'.state ≡ false
      → start_of c'.members routine w ≡ thread_exit value v
  unfolding thread_exit one_one_start many_many_start
  start-thread_exit routine value v c' returns same after live ne nj =
      elim (members-cases c'.members) [
        | inl (k, s, e) ↦
            simp (caller.not_null, caller.at, returns, same, after.at, e, ne, nj, ==-refl)
        | inr (x, e) ↦
            let live' : Allocated (many_many x) = subst Allocated e live in
            simp (caller.not_null, caller.at, returns, same, after.at, e, live'.1, ne, nj, ==-refl)
      ]

  -- A one-one thread that nobody joins ends as `Ended` says when its start routine returns a value.
  pub one_one_start_ends :
      (routine : Ptr → Ptr → Ptr) (ktid : ℕ) (stack : Ptr) (e : (c.join_td == null) ≡ true)
      → c.members ≡ one_one ktid stack
      → c.mem_lock ≡ 1
      → w.mmrll_lk ≡ 1
      → Leaves
          (Ended w c (nobody e) (routine c.start c.arg))
          (one_one_start (λ start arg. pure (routine start arg)) w)
  unfolding one_one_start lock_acquire lock_release
  one_one_start_ends routine k s e kind free list_free =
      simp (caller.not_null, caller.at, kind, free, list_free, e, ==-refl)
        (refl, refl, refl, refl, λ a n m. simp n refl)

  -- thread_yield of a one-one thread returns at once and changes nothing in the library's state.
  pub one_one_yields :
      (ktid : ℕ) (stack : Ptr)
      → c.members ≡ one_one ktid stack
      → thread_yield w ≡ ok success (record w { events = yielded ∷ w.events })
  unfolding thread_yield
  one_one_yields k s e = simp (caller.not_null, caller.at, e, ==-refl)

-- thread_yield of a many-many thread gives the control back with its interrupts off; once it is resumed it
-- turns them on and returns.
pub many_many_yields :
    (w : World) (c : Thread) (x : Contexts)
    → Live w w.self c x
    → Swaps
        (λ g.
          (g.threads w.self ≡ some (record c { members = set_intr 1 c.members }))
          × SameThreads w g w.self w.self
          × SameLists w g)
        (do td_mm_enable_intr w.self; pure success)
        (thread_yield w)
unfolding thread_yield
many_many_yields w c x caller =
    simp (caller.not_null, caller.at, caller.members_at, caller.curr, caller.ret_, ==-refl)
      ((refl, λ a n m. simp n refl, (refl, refl, refl)), λ g. refl)
