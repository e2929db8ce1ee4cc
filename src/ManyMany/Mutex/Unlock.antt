-- ===== src/ManyMany/Mutex/Unlock.antt =====
-- thread_mutex_unlock on each of its branches.
use libthreads_c.Base.{ℕ, ◌≡◌, refl, false, some, List, [], ◌∷◌, ◌++◌, ap, sym, ◌==◌, ==-refl}
use libthreads_c.Mods.Lock.{lock_acquire, lock_release}
use libthreads_c.ManyMany.World.{
  Ptr, null, eacces, Status, fail, success, Thread, Mutex, World, Returns,
}
use libthreads_c.ManyMany.Facts.{Holds, HoldsMutex, Live, SameThreads, SameLists}
use libthreads_c.ManyMany.Mutex.{thread_mutex_unlock}
use libthreads_c.ManyMany.Mutex.Lock.{SameMutexes}

-- The mutex `p`, which was `m`, belongs to `x` and is unlocked, and `x` stands at the end of the
-- ready list; the descriptor `c` of the running thread has its interrupts on.
abbrev pub HandedOver : World → Ptr → Mutex → Thread → Ptr → List Ptr → Status → World → Type 0
HandedOver w p m c x xs status g =
    (status ≡ success)
    × (g.mutexes p ≡ some (record m { owner = x; waitll = xs }))
    × SameMutexes w g p
    × (g.mmrll ≡ w.mmrll ++ x ∷ [])
    × (g.mmrll_lk ≡ 1)
    × (g.self ≡ w.self)
    × (g.threads w.self ≡ some (record c { intr_off = 0 }))
    × SameThreads w g w.self w.self

-- The mutex `p`, which was `m`, has no owner, and nothing else changed.
abbrev pub Emptied : World → Ptr → Mutex → Status → World → Type 0
Emptied w p m status g =
    (status ≡ success)
    × (g.mutexes p ≡ some (record m { owner = null }))
    × SameMutexes w g p
    × (g.threads ≡ w.threads)
    × SameLists w g

module _ (w : World) (p : Ptr) (m : Mutex) (c : Thread) (caller : Live w w.self c)
    (mutex : HoldsMutex w p m) (free : m.mem_lock ≡ 1) where
  -- The owner hands a mutex with a queue over to the thread at the head of the queue, which
  -- becomes the owner and ready at once: the mutex is never without an owner in between.
  pub unlock_handoff :
      (x : Ptr) (xs : List Ptr) (u : Thread)
      → m.owner ≡ w.self
      → m.waitll ≡ x ∷ xs
      → Holds w x u
      → (x == w.self) ≡ false
      → w.mmrll_lk ≡ 1
      → Returns (HandedOver w p m c x xs) (thread_mutex_unlock (some p) w)
  unfolding thread_mutex_unlock lock_acquire lock_release
  unlock_handoff x xs u own queue waiter ne list_free =
      simp
        (
          mutex.not_null, mutex.at, free, own, queue, waiter.not_null, waiter.at, ne, list_free,
          caller.not_null, caller.at, ==-refl,
        )
        (refl, refl, λ a n. simp n refl, refl, refl, refl, refl, λ a n n'. simp n refl)

  -- With nobody waiting the owner leaves the mutex without an owner, and nothing else changes.
  pub unlock_empty :
      m.owner ≡ w.self → m.waitll ≡ [] → Returns (Emptied w p m) (thread_mutex_unlock (some p) w)
  unfolding thread_mutex_unlock lock_acquire lock_release
  unlock_empty own queue =
      simp (mutex.not_null, mutex.at, free, own, queue, ==-refl)
        (refl, refl, λ a n. simp n refl, refl, (refl, refl, refl))

  -- A thread that is not the owner is refused with EACCES; the mutex, its lock included, is as it
  -- was.
  pub unlock_not_owner :
      (m.owner == w.self) ≡ false
      → Returns
          (λ status g.
            (status ≡ fail)
            × (g.mutexes p ≡ some m)
            × SameMutexes w g p
            × (g.threads w.self ≡ some (record c { error = eacces }))
            × SameThreads w g w.self w.self
            × SameLists w g)
          (thread_mutex_unlock (some p) w)
  unfolding thread_mutex_unlock lock_acquire lock_release
  unlock_not_owner other =
      simp (mutex.not_null, mutex.at, free, other, caller.not_null, caller.at, ==-refl)
        (
          refl,
          ap (λ (l : ℕ). some (record m { mem_lock = l })) (sym free),
          λ a n. simp n refl,
          refl,
          λ a n n'. simp n refl,
          (refl, refl, refl),
        )
