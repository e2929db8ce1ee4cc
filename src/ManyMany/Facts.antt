-- ===== src/ManyMany/Facts.antt =====
-- What the theorems assume of a world, and how a run of one thread is followed by the run of
-- another.
pub use libthreads_c.Base.Outcome.{on_swap, on_leave, on_swap-Returns, on_leave-Returns}
use libthreads_c.Base.{◌≡◌, false, some, ◌==◌}
use libthreads_c.ManyMany.World.{Ptr, null, Thread, Mutex, World}

-- `p` is the address of the descriptor `t`, of the mutex `m`.
pub record Holds (w : World) (p : Ptr) (t : Thread) : Type 0 where
  pub not_null : (p == null) ≡ false
  pub at : w.threads p ≡ some t

pub record HoldsMutex (w : World) (p : Ptr) (m : Mutex) : Type 0 where
  pub not_null : (p == null) ≡ false
  pub at : w.mutexes p ≡ some m

-- A descriptor whose contexts were allocated.
pub record Live (w : World) (p : Ptr) (t : Thread) : Type 0 where
  pub not_null : (p == null) ≡ false
  pub at : w.threads p ≡ some t
  pub curr : (t.curr_cxt == null) ≡ false
  pub ret : (t.ret_cxt == null) ≡ false

-- The descriptors of the world that differ at most at two addresses.
abbrev pub SameThreads : World → World → Ptr → Ptr → Type 0
SameThreads w g p q = (a : Ptr) → (a == p) ≡ false → (a == q) ≡ false → g.threads a ≡ w.threads a

-- The ready list, its lock and the running thread are as they were.
abbrev pub SameLists : World → World → Type 0
SameLists w g = (g.mmrll ≡ w.mmrll) × (g.mmrll_lk ≡ w.mmrll_lk) × (g.self ≡ w.self)
