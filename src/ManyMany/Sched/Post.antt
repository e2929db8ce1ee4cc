-- ===== src/ManyMany/Sched/Post.antt =====
-- What the dispatcher does with a thread that came back to it, by the thread's state.
use libthreads_c.Base.{
  ◌⊎◌, inl, inr, Bool-cases, ◌≡◌, refl, Bool, true, false, some, [], ◌∷◌, ◌++◌, ==-refl, ◌==◌,
  if◌then◌else◌,
}
use libthreads_c.Mods.Lock.{lock_acquire, lock_release}
use libthreads_c.ManyMany.World.{
  Ptr, null, running, exited, wait_join, wait_mutex, Thread, Mutex, World, spins, Returns,
}
use libthreads_c.ManyMany.Facts.{Holds, HoldsMutex, SameThreads}
use libthreads_c.ManyMany.Sched.{post_schedule, Next, loop, repeat}

-- The lock of `q`, whose descriptor was `u`, was released, and no list changed.
abbrev pub Unlocked : World → Ptr → Thread → Next → World → Type 0
Unlocked w q u next g =
    (next ≡ loop)
    × (g.mmrll ≡ w.mmrll)
    × (g.mmrll_lk ≡ w.mmrll_lk)
    × (g.threads q ≡ some (record u { mem_lock = 1 }))
    × SameThreads w g q q

-- The lock of the mutex `q`, which was `m`, was released, and no list and no descriptor changed.
abbrev pub MutexUnlocked : World → Ptr → Mutex → Next → World → Type 0
MutexUnlocked w q m next g =
    (next ≡ loop)
    × (g.mmrll ≡ w.mmrll)
    × (g.mmrll_lk ≡ w.mmrll_lk)
    × (g.mutexes q ≡ some (record m { mem_lock = 1 }))
    × (g.threads ≡ w.threads)

-- `p`, whose descriptor was `t`, is over, and who waits to join it is ready.
abbrev pub Over : World → Ptr → Thread → Next → World → Type 0
Over w p t next g =
    (next ≡ loop)
    × (g.mmrll ≡ (if t.join_thread == null then w.mmrll else w.mmrll ++ t.join_thread ∷ []))
    × (g.mmrll_lk ≡ 1)
    × (g.threads p ≡ some (record t { wait = 0 }))
    × SameThreads w g p p

module _ (w : World) (p old_fs : Ptr) (t : Thread) (pending : Bool) (thread : Holds w p t) where
  -- A thread that comes back running stands at the end of the ready list, unless a signal for the
  -- kernel thread is pending: then it is resumed at once. Its descriptor is as it was.
  pub post_running :
      t.state ≡ running
      → w.mmrll_lk ≡ 1
      → Returns
          (λ next g.
            (next ≡ (if pending then repeat else loop))
            × (g.mmrll ≡ (if pending then w.mmrll else w.mmrll ++ p ∷ []))
            × (g.mmrll_lk ≡ 1)
            × (g.threads p ≡ some t)
            × (g.self ≡ old_fs))
          (post_schedule old_fs pending p w)
  unfolding post_schedule lock_acquire lock_release
  post_running st free = elim (Bool-cases pending) [
    | inl now ↦ simp (thread.not_null, thread.at, st, free, now) (refl, refl, refl, refl, refl)
    | inr later ↦ simp (thread.not_null, thread.at, st, free, later) (refl, refl, refl, refl, refl)
  ]

  -- A thread that waits to join is on no list. The lock of the thread that it waits for, which it
  -- took with it, is released only now.
  pub post_wait_join :
      (u : Thread)
      → t.state ≡ wait_join
      → Holds w t.wait_for u
      → u.mem_lock ≡ 0
      → Returns (Unlocked w t.wait_for u) (post_schedule old_fs pending p w)
  unfolding post_schedule lock_acquire lock_release
  post_wait_join u st target held =
      simp (thread.not_null, thread.at, st, target.not_null, target.at, held, ==-refl)
        (refl, refl, refl, refl, λ a n m. simp n refl)

  -- A thread that waits for a mutex is on no list but the mutex's, whose lock is released only now.
  pub post_wait_mutex :
      (m : Mutex)
      → t.state ≡ wait_mutex
      → HoldsMutex w t.wait_for m
      → m.mem_lock ≡ 0
      → Returns (MutexUnlocked w t.wait_for m) (post_schedule old_fs pending p w)
  unfolding post_schedule lock_acquire lock_release
  post_wait_mutex m st mutex held =
      simp (thread.not_null, thread.at, st, mutex.not_null, mutex.at, held, ==-refl)
        (refl, refl, refl, refl, refl)

  -- A thread that has exited is marked as over, and the thread that waits to join it, if there is
  -- one, stands at the end of the ready list. Its own lock is free again.
  pub post_exited :
      t.state ≡ exited
      → w.mmrll_lk ≡ 1
      → t.mem_lock ≡ 1
      → ((t.join_thread == null) ≡ true)
        ⊎ ((u : Thread) × Holds w t.join_thread u × ((t.join_thread == p) ≡ false))
      → Returns (Over w p t) (post_schedule old_fs pending p w)
  unfolding post_schedule lock_acquire lock_release
  post_exited st list_free free (inl nobody) =
      simp (thread.not_null, thread.at, st, free, nobody, list_free, ==-refl)
        (refl, refl, refl, refl, λ a n m. simp n refl)
  post_exited st list_free free (inr (u, waiter, ne)) =
      simp
        (thread.not_null, thread.at, st, free, waiter.not_null, waiter.at, ne, list_free, ==-refl)
        (refl, refl, refl, refl, λ a n m. simp n refl)

  -- While another thread that is being switched out still holds the lock of this one, the action
  -- for an exited thread does not go on: nobody is woken before its context is saved.
  pub post_exited_blocked :
      t.state ≡ exited → t.mem_lock ≡ 0 → post_schedule old_fs pending p w ≡ spins
  unfolding post_schedule lock_acquire lock_release
  post_exited_blocked st held = simp (thread.not_null, thread.at, st, held)
