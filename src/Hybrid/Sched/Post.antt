-- ===== src/Hybrid/Sched/Post.antt =====
-- What a dispatcher of the hybrid library does with a thread that came back to it, by the thread's state.
use libthreads_c.Base.{
  Bool-cases, ◌≡◌, refl, Bool, some, List, [], ◌∷◌, ◌++◌, inl, inr, ==-refl, if◌then◌else◌,
}
use libthreads_c.Mods.Lock.{lock_acquire, lock_release}
use libthreads_c.Hybrid.World.{
  Ptr, running, exited, wait_join, Contexts, Thread, World, Event, timer_stopped, futex_woken,
  Returns,
}
use libthreads_c.Hybrid.Facts.{Holds, Live, SameThreads}
use libthreads_c.Hybrid.Control.Exit.{Joiner, nobody, many_many_joiner, one_one_joiner, made_ready}
use libthreads_c.Hybrid.Sched.{post_schedule, Next, loop, repeat}

-- A sleeper in the kernel is woken for a one-one joiner.
abbrev pub woken : {w : World} {c : Thread} → Ptr → Joiner w c → List Event → List Event
woken p (nobody e) es = es
woken p (many_many_joiner j x live other) es = es
woken p (one_one_joiner j ktid stack at e other) es = futex_woken p ∷ es

-- `p`, whose descriptor was `t`, is over, and who waits to join it is told so.
abbrev pub Over :
    (w : World) (p : Ptr) (t : Thread) {v : World} → Joiner v t → Next → World → Type 0
Over w p t joiner next g =
    (next ≡ loop)
    × (g.mmrll ≡ (if made_ready joiner then w.mmrll ++ t.join_td ∷ [] else w.mmrll))
    × (g.mmrll_lk ≡ 1)
    × (g.events ≡ woken p joiner (timer_stopped p ∷ w.events))
    × (g.threads p ≡ some (record t { wait = 0; mem_lock = 1 }))
    × SameThreads w g p p

-- The lock of `q`, whose descriptor was `u`, was released, and no list changed.
abbrev pub Unlocked : World → Ptr → Thread → Next → World → Type 0
Unlocked w q u next g =
    (next ≡ loop)
    × (g.mmrll ≡ w.mmrll)
    × (g.mmrll_lk ≡ w.mmrll_lk)
    × (g.threads q ≡ some (record u { mem_lock = 1 }))
    × SameThreads w g q q

module _ (w : World) (p old_fs : Ptr) (t : Thread) (x : Contexts) (pending : Bool)
    (thread : Live w p t x) where
  -- A thread that has exited is marked as over and its own lock is free again. A many-many joiner stands
  -- at the end of the ready list then; for a one-one joiner the kernel wakes the sleeper on the wait word.
  pub post_exited_tells :
      (joiner : Joiner (record w { self = p }) t)
      → t.state ≡ exited
      → w.mmrll_lk ≡ 1
      → t.mem_lock ≡ 1
      → Returns (Over w p t joiner) (post_schedule old_fs pending p w)
  unfolding post_schedule lock_acquire lock_release
  post_exited_tells (nobody e) st list_free free =
      simp (thread.not_null, thread.at, thread.members_at, st, free, e, list_free, ==-refl)
        (refl, refl, refl, refl, refl, λ a n m. simp n refl)
  post_exited_tells (many_many_joiner j y live ne) st list_free free =
      simp
        (
          thread.not_null, thread.at, thread.members_at, st, free, ne, live.not_null, live.at,
          live.members_at, list_free, ==-refl,
        )
        (refl, refl, refl, refl, refl, λ a n m. simp n refl)
  post_exited_tells (one_one_joiner j k s at e ne) st list_free free =
      simp
        (
          thread.not_null, thread.at, thread.members_at, st, free, ne, at.not_null, at.at, e,
          list_free, ==-refl,
        )
        (refl, refl, refl, refl, refl, λ a n m. simp n refl)

  -- A thread that waits to join is on no list; the lock of the thread that it waits for, which it took
  -- with it, is released only now.
  pub post_wait_join :
      (u : Thread)
      → t.state ≡ wait_join
      → Holds w t.wait_join_td u
      → u.mem_lock ≡ 0
      → Returns (Unlocked w t.wait_join_td u) (post_schedule old_fs pending p w)
  unfolding post_schedule lock_acquire lock_release
  post_wait_join u st target held =
      simp
        (
          thread.not_null, thread.at, thread.members_at, st, target.not_null, target.at, held,
          ==-refl,
        )
        (refl, refl, refl, refl, λ a n m. simp n refl)

  -- A thread that comes back running stands at the end of the ready list, unless a signal for the kernel
  -- thread is pending: then it is resumed at once.
  pub post_running :
      t.state ≡ running
      → w.mmrll_lk ≡ 1
      → Returns
          (λ next g.
            (next ≡ (if pending then repeat else loop))
            × (g.mmrll ≡ (if pending then w.mmrll else w.mmrll ++ p ∷ []))
            × (g.mmrll_lk ≡ 1)
            × (g.threads p ≡ some t)
            × (g.self ≡ old_fs))
          (post_schedule old_fs pending p w)
  unfolding post_schedule lock_acquire lock_release
  post_running st free = elim (Bool-cases pending) [
    | inl now ↦
        simp (thread.not_null, thread.at, thread.members_at, st, free, now)
          (refl, refl, refl, refl, refl)
    | inr later ↦
        simp (thread.not_null, thread.at, thread.members_at, st, free, later)
          (refl, refl, refl, refl, refl)
  ]
