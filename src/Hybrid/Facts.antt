-- ===== src/Hybrid/Facts.antt =====
-- What the theorems on the hybrid library assume of a world, and what they say of a thread by its type.
pub use libthreads_c.Base.Outcome.{on_swap, on_leave, on_swap-Returns, on_leave-Returns}
use libthreads_c.Base.{ℕ, ◌≡◌, refl, false, some, ◌⊎◌, inl, inr, ◌==◌}
use libthreads_c.Hybrid.World.{Ptr, null, Contexts, Members, one_one, many_many, Thread, World}

-- `p` is the address of the descriptor `t`.
pub record Holds (w : World) (p : Ptr) (t : Thread) : Type 0 where
  pub not_null : (p == null) ≡ false
  pub at : w.threads p ≡ some t

-- A descriptor of the type many-many whose contexts were allocated.
pub record Live (w : World) (p : Ptr) (t : Thread) (m : Contexts) : Type 0 where
  pub not_null : (p == null) ≡ false
  pub at : w.threads p ≡ some t
  pub members_at : t.members ≡ many_many m
  pub curr : (m.curr_cxt == null) ≡ false
  pub ret_ : (m.ret_cxt == null) ≡ false

-- The descriptors of the world that differ at most at two addresses.
abbrev pub SameThreads : World → World → Ptr → Ptr → Type 0
SameThreads w g p q = (a : Ptr) → (a == p) ≡ false → (a == q) ≡ false → g.threads a ≡ w.threads a

-- The ready list, its lock and the running thread are as they were.
abbrev pub SameLists : World → World → Type 0
SameLists w g = (g.mmrll ≡ w.mmrll) × (g.mmrll_lk ≡ w.mmrll_lk) × (g.self ≡ w.self)

-- A many-many thread has its contexts.
abbrev pub Allocated : Members → Type 0
Allocated (one_one ktid stack) = Unit {0}
Allocated (many_many m) = ((m.curr_cxt == null) ≡ false) × ((m.ret_cxt == null) ≡ false)

-- The interrupt flag, which only a many-many thread has.
abbrev pub set_intr : ℕ → Members → Members
set_intr off (one_one ktid stack) = one_one ktid stack
set_intr off (many_many m) = many_many (record m { intr_off = off })

pub members-cases :
    (m : Members)
    → ((ktid : ℕ) × (stack : Ptr) × (m ≡ one_one ktid stack)) ⊎ ((x : Contexts) × (m ≡ many_many x))
members-cases (one_one ktid stack) = inl (ktid, stack, refl)
members-cases (many_many x) = inr (x, refl)
