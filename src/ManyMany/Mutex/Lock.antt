-- ===== src/ManyMany/Mutex/Lock.antt =====
-- thread_mutex_lock and thread_mutex_trylock on each of their branches.
use libthreads_c.Base.{ℕ, ◌≡◌, refl, false, some, [], ◌∷◌, ◌++◌, ap, sym, ◌==◌, ==-refl}
use libthreads_c.Mods.Lock.{lock_acquire, lock_release}
use libthreads_c.ManyMany.World.{
  Ptr, null, running, wait_mutex, ebusy, Status, fail, success, Thread, Mutex, World, Returns,
  Swaps,
}
use libthreads_c.ManyMany.Facts.{HoldsMutex, Live, SameThreads, SameLists}
use libthreads_c.ManyMany.Mutex.{thread_mutex_lock, thread_mutex_trylock, lock_finish}

-- The mutexes other than `p` are as they were.
abbrev pub SameMutexes : World → World → Ptr → Type 0
SameMutexes w g p = (a : Ptr) → (a == p) ≡ false → g.mutexes a ≡ w.mutexes a

-- The running thread owns the mutex `p`, which was `m`, and nothing else changed.
abbrev pub Taken : World → Ptr → Mutex → Status → World → Type 0
Taken w p m status g =
    (status ≡ success)
    × (g.mutexes p ≡ some (record m { owner = w.self }))
    × SameMutexes w g p
    × (g.threads ≡ w.threads)
    × SameLists w g

-- The running thread, whose descriptor was `c`, stands at the end of the queue of the mutex `p`,
-- which was `m`, and holds its lock.
abbrev pub Queued : World → Ptr → Mutex → Thread → World → Type 0
Queued w p m c g =
    (g.mutexes p ≡ some (record m { waitll = m.waitll ++ w.self ∷ []; mem_lock = 0 }))
    × SameMutexes w g p
    × (g.threads w.self ≡ some (record c { intr_off = 1; state = wait_mutex; wait_for = p }))
    × SameThreads w g w.self w.self
    × SameLists w g

module _ (w : World) (p : Ptr) (m : Mutex) (c : Thread) (caller : Live w w.self c)
    (mutex : HoldsMutex w p m) (free : m.mem_lock ≡ 1) where
  -- A mutex with no owner is taken at once, by lock and by trylock alike.
  pub lock_free :
      m.owner ≡ null
      → Returns (Taken w p m) (thread_mutex_lock (some p) w)
        × Returns (Taken w p m) (thread_mutex_trylock (some p) w)
  unfolding thread_mutex_lock thread_mutex_trylock lock_acquire lock_release
  lock_free nobody = (
    simp (mutex.not_null, mutex.at, free, nobody, ==-refl)
        (refl, refl, λ a n. simp n refl, refl, (refl, refl, refl)),
    simp (mutex.not_null, mutex.at, free, nobody, ==-refl)
        (refl, refl, λ a n. simp n refl, refl, (refl, refl, refl)),
  )

  -- A mutex with an owner makes the caller wait: it goes to the end of the mutex's queue and to
  -- the dispatcher, with the mutex's lock held and its interrupts off; the owner stays. What is
  -- left of the call is `lock_finish`.
  pub lock_contended :
      (m.owner == null) ≡ false
      → Swaps (Queued w p m c) (lock_finish w.self) (thread_mutex_lock (some p) w)
  unfolding thread_mutex_lock lock_acquire lock_release
  lock_contended owned =
      simp
        (
          mutex.not_null, mutex.at, free, owned, caller.not_null, caller.at, caller.curr,
          caller.ret, ==-refl,
        )
        ((refl, λ a n. simp n refl, refl, λ a n n'. simp n refl, (refl, refl, refl)), λ v. refl)

  -- trylock of a mutex with an owner fails with EBUSY and leaves the mutex, its lock included, as
  -- it was.
  pub trylock_busy :
      (m.owner == null) ≡ false
      → Returns
          (λ status g.
            (status ≡ fail)
            × (g.mutexes p ≡ some m)
            × SameMutexes w g p
            × (g.threads w.self ≡ some (record c { error = ebusy }))
            × SameThreads w g w.self w.self
            × SameLists w g)
          (thread_mutex_trylock (some p) w)
  unfolding thread_mutex_trylock lock_acquire lock_release
  trylock_busy owned =
      simp (mutex.not_null, mutex.at, free, owned, caller.not_null, caller.at, ==-refl)
        (
          refl,
          ap (λ (l : ℕ). some (record m { mem_lock = l })) (sym free),
          λ a n. simp n refl,
          refl,
          λ a n n'. simp n refl,
          (refl, refl, refl),
        )

  -- The rest of a contended lock makes the caller run again with its interrupts on, and returns
  -- success.
  pub lock_finish_lem :
      Returns
        (λ status g.
          (status ≡ success)
          × (g.threads w.self ≡ some (record c { wait_for = null; state = running; intr_off = 0 }))
          × SameThreads w g w.self w.self
          × (g.mutexes ≡ w.mutexes)
          × SameLists w g)
        (lock_finish w.self w)
  unfolding lock_finish
  lock_finish_lem =
      simp (caller.not_null, caller.at, ==-refl)
        (refl, refl, λ a n n'. simp n refl, refl, (refl, refl, refl))
