-- ===== src/ManyMany/Spin/Laws.antt =====
-- The spinlock calls of one thread, on each of their branches.
use libthreads_c.Base.{ℕ, ◌≡◌, refl, ap, sym, false, some, ◌==◌, ==-refl}
use libthreads_c.ManyMany.World.{
  Ptr, null, ebusy, eacces, Errno, Status, fail, success, Thread, SpinLock, World, spins, ◌>>◌,
  Returns,
}
use libthreads_c.ManyMany.Facts.{Live, SameThreads, SameLists}
use libthreads_c.ManyMany.Spin.{thread_spin_lock, thread_spin_trylock, thread_spin_unlock}

pub record HoldsSpin (w : World) (p : Ptr) (s : SpinLock) : Type 0 where
  pub not_null : (p == null) ≡ false
  pub at : w.spinlocks p ≡ some s

abbrev pub SameSpins : World → World → Ptr → Type 0
SameSpins w g p = (a : Ptr) → (a == p) ≡ false → g.spinlocks a ≡ w.spinlocks a

-- The call returned success with the spinlock `p` as given, and nothing else changed.
abbrev pub SpinIs : World → Ptr → SpinLock → Status → World → Type 0
SpinIs w p s status g =
    (status ≡ success)
    × (g.spinlocks p ≡ some s)
    × SameSpins w g p
    × (g.threads ≡ w.threads)
    × SameLists w g

-- The call was refused with `e` in the caller's error number, and nothing else changed.
abbrev pub SpinRefused : World → Ptr → SpinLock → Thread → Errno → Status → World → Type 0
SpinRefused w p s c e status g =
    (status ≡ fail)
    × (g.spinlocks p ≡ some s)
    × SameSpins w g p
    × (g.threads w.self ≡ some (record c { error = e }))
    × SameThreads w g w.self w.self
    × SameLists w g

abbrev taken_by : Ptr → SpinLock
taken_by t = record { owner = t; lock = 0 }

abbrev free_lock : SpinLock
free_lock = record { owner = null; lock = 1 }

module _ (w : World) (p : Ptr) (s : SpinLock) (c : Thread) (caller : Live w w.self c)
    (spin : HoldsSpin w p s) where
  -- A free spinlock is taken by lock and by trylock alike, with the caller as its owner; an
  -- unlock by the same thread right after makes it free again, with no owner.
  pub spin_lock_unlock :
      s.lock ≡ 1
      → Returns (SpinIs w p (taken_by w.self)) (thread_spin_lock (some p) w)
        × Returns (SpinIs w p (taken_by w.self)) (thread_spin_trylock (some p) w)
        × Returns
            (SpinIs w p free_lock)
            ((do thread_spin_lock (some p); thread_spin_unlock (some p)) w)
  unfolding thread_spin_lock thread_spin_trylock thread_spin_unlock
  spin_lock_unlock free = (
    simp (spin.not_null, spin.at, free, ==-refl)
        (refl, refl, λ a n. simp n refl, refl, (refl, refl, refl)),
    simp (spin.not_null, spin.at, free, ==-refl)
        (refl, refl, λ a n. simp n refl, refl, (refl, refl, refl)),
    simp (spin.not_null, spin.at, free, ==-refl)
        (refl, refl, λ a n. simp n refl, refl, (refl, refl, refl)),
  )

  -- A spinlock that is taken keeps thread_spin_lock busy for as long as nobody else runs, and makes
  -- trylock fail with EBUSY; the spinlock stays as it is.
  pub spin_taken :
      s.lock ≡ 0
      → (thread_spin_lock (some p) w ≡ spins)
        × Returns (SpinRefused w p s c ebusy) (thread_spin_trylock (some p) w)
  unfolding thread_spin_lock thread_spin_trylock
  spin_taken taken = (
    simp (spin.not_null, spin.at, taken),
    simp (spin.not_null, spin.at, taken, caller.not_null, caller.at, ==-refl)
        (
          refl,
          ap (λ (l : ℕ). some (record s { lock = l })) (sym taken),
          λ a n. simp n refl,
          refl,
          λ a n n'. simp n refl,
          (refl, refl, refl),
        ),
  )

  -- An unlock by a thread that is not the owner fails with EACCES and leaves the spinlock as it is.
  pub spin_unlock_not_owner :
      (s.owner == w.self) ≡ false
      → Returns (SpinRefused w p s c eacces) (thread_spin_unlock (some p) w)
  unfolding thread_spin_unlock
  spin_unlock_not_owner other =
      simp (spin.not_null, spin.at, other, caller.not_null, caller.at, ==-refl)
        (refl, refl, λ a n. refl, refl, λ a n n'. simp n refl, (refl, refl, refl))
