-- ===== src/ManyMany/Control/Join.antt =====
-- thread_join on each of its branches.
use libthreads_c.Base.{
  ℕ, ◌≡◌, refl, Bool, true, false, Option, none, some, ◌⊎◌, inl, inr, Bool-cases, ◌==◌, ==-refl,
  ==_sym, ◌∙◌, arith, ap, sym, if◌then◌else◌,
}
use libthreads_c.Mods.Lock.{lock_acquire, lock_release}
use libthreads_c.ManyMany.World.{
  Ptr, null, running, wait_join, Errno, einval, edeadlk, Status, fail, success, Thread, World,
  Swaps, Returns, Returns-mono,
}
use libthreads_c.ManyMany.Facts.{Live, SameThreads, SameLists}
use libthreads_c.ManyMany.Descr.{is_joined}
use libthreads_c.ManyMany.Control.{thread_join, join_finish}

-- The caller, with the descriptor `c`, waits for `p`, whose descriptor was `t`.
abbrev pub Waiting : World → Ptr → Thread → Thread → World → Type 0
Waiting w p t c g =
    (g.threads p ≡ some (record t { join_thread = w.self; mem_lock = 0 }))
    × (g.threads w.self ≡ some (record c { intr_off = 1; wait_for = p; state = wait_join }))
    × SameThreads w g p w.self
    × SameLists w g

-- The caller has joined `p`.
abbrev pub Finished : World → Ptr → Thread → Thread → Bool → Status × Option Ptr → World → Type 0
Finished w p t c want_ret (status, ret) g =
    (status ≡ success)
    × (ret ≡ (if want_ret then some t.ret else none))
    × (g.threads p ≡ none)
    × (g.threads w.self ≡ some (record c { state = running; wait_for = null; intr_off = 0 }))
    × SameThreads w g p w.self
    × SameLists w g

module _ (w : World) (p : Ptr) (t c : Thread) (want_ret : Bool) (caller : Live w w.self c)
    (target : Live w p t) (ne : (w.self == p) ≡ false) where
  en : (p == w.self) ≡ false
  en = ==_sym p w.self ∙ ne

  -- A caller that may join a thread that has not finished leaves its handle in that thread's
  -- descriptor, notes whom it waits for, and goes to the dispatcher with the target's lock held
  -- and its own interrupts off. It is on no list then, no other descriptor changes, and what is
  -- left of the call is `join_finish`.
  pub join_waits :
      is_joined t.state ≡ false
      → (c.join_thread == p) ≡ false
      → t.mem_lock ≡ 1
      → t.join_thread ≡ null
      → (t.wait == 0) ≡ false
      → Swaps (Waiting w p t c) (join_finish w.self p want_ret) (thread_join p want_ret w)
  unfolding thread_join lock_acquire lock_release
  join_waits nj nd free nojoin over =
      simp
        (
          target.not_null, target.at, caller.not_null, caller.at, caller.curr, caller.ret, ne, en,
          nj, nd, free, nojoin, over, ==-refl,
        )
        ((refl, refl, λ a n m. simp (n, m) refl, (refl, refl, refl)), λ w'. refl)

  -- The rest of the call makes the caller run again, returns what the target left as its result
  -- if that was asked for, and frees the target; no list changes.
  pub join_finish_lem : Returns (Finished w p t c want_ret) (join_finish w.self p want_ret w)
  unfolding join_finish
  join_finish_lem =
      simp (target.not_null, target.at, target.curr, caller.not_null, caller.at, ne, en, ==-refl)
        (refl, refl, refl, refl, λ a n m. simp (n, m) refl, (refl, refl, refl))

  -- A thread that has finished is joined at once, with the same outcome.
  pub join_over :
      is_joined t.state ≡ false
      → (c.join_thread == p) ≡ false
      → t.mem_lock ≡ 1
      → t.join_thread ≡ null
      → (t.wait == 0) ≡ true
      → Returns (Finished w p t c want_ret) (thread_join p want_ret w)
  unfolding thread_join lock_acquire lock_release
  join_over nj nd free nojoin over =
      simp
        (
          target.not_null, target.at, target.curr, caller.not_null, caller.at, ne, en, nj, nd, free,
          nojoin, over, ==-refl,
        )
        (refl, refl, refl, refl, λ a n m. simp (n, m) refl, (refl, refl, refl))

  -- A second joiner is refused with EINVAL: the target, its lock included, is as it was, and the
  -- caller goes on with its interrupts on.
  pub join_taken :
      is_joined t.state ≡ false
      → (c.join_thread == p) ≡ false
      → t.mem_lock ≡ 1
      → (t.join_thread == null) ≡ false
      → Returns
          (λ (status, ret) g.
            (status ≡ fail)
            × (ret ≡ none)
            × (g.threads p ≡ some t)
            × (g.threads w.self ≡ some (record c { intr_off = 0; error = einval }))
            × SameThreads w g p w.self
            × SameLists w g)
          (thread_join p want_ret w)
  unfolding thread_join lock_acquire lock_release
  join_taken nj nd free taken =
      simp
        (
          target.not_null, target.at, caller.not_null, caller.at, ne, en, nj, nd, free, taken,
          ==-refl,
        )
        (
          refl,
          refl,
          ap (λ (l : ℕ). some (record t { mem_lock = l })) (sym free),
          refl,
          λ a n m. simp (n, m) refl,
          (refl, refl, refl),
        )

-- The refusals that come before any lock is taken: nothing changes but the caller's error number.
abbrev pub Refused : World → Thread → Errno → Status × Option Ptr → World → Type 0
Refused w c e (status, ret) g =
    (status ≡ fail)
    × (ret ≡ none)
    × (g.threads w.self ≡ some (record c { error = e }))
    × SameThreads w g w.self w.self
    × SameLists w g

module _ (w : World) (p : Ptr) (t c : Thread) (want_ret : Bool) (caller : Live w w.self c) where
  -- A thread that joins itself, or a thread that already waits to join it, is refused with EDEADLK.
  pub join_deadlock :
      Live w p t
      → is_joined t.state ≡ false
      → ((w.self == p) ≡ true) ⊎ ((c.join_thread == p) ≡ true)
      → Returns (Refused w c edeadlk) (thread_join p want_ret w)
  unfolding thread_join
  join_deadlock target nj (inl self) =
      simp (target.not_null, target.at, caller.not_null, caller.at, nj, self, ==-refl)
        (refl, refl, refl, λ a n m. simp n refl, (refl, refl, refl))
  join_deadlock target nj (inr waits) = elim (Bool-cases (w.self == p)) [
    | inl self ↦
        simp (target.not_null, target.at, caller.not_null, caller.at, nj, self, ==-refl)
          (refl, refl, refl, λ a n m. simp n refl, (refl, refl, refl))
    | inr other ↦
        simp (target.not_null, target.at, caller.not_null, caller.at, nj, other, waits, ==-refl)
          (refl, refl, refl, λ a n m. simp n refl, (refl, refl, refl))
  ]

  -- A NULL handle is refused with EINVAL.
  pub join_invalid : p ≡ null → Returns (Refused w c einval) (thread_join p want_ret w)
  unfolding thread_join
  join_invalid e =
      simp (e, caller.not_null, caller.at, ==-refl)
        (refl, refl, refl, λ a n m. simp n refl, (refl, refl, refl))

-- Why thread_join refuses to join `p`, with the error number and the interrupt flag that the caller then
-- has.
pub data Cause (w : World) (p : Ptr) (t c : Thread) : Errno → ℕ → Type 0 where
  no_thread : p ≡ null → Cause w p t c einval c.intr_off
  deadlock :
      Live w p t
      → is_joined t.state ≡ false
      → ((w.self == p) ≡ true) ⊎ ((c.join_thread == p) ≡ true)
      → Cause w p t c edeadlk c.intr_off
  taken :
      Live w p t
      → is_joined t.state ≡ false
      → (w.self == p) ≡ false
      → (c.join_thread == p) ≡ false
      → t.mem_lock ≡ 1
      → (t.join_thread == null) ≡ false
      → Cause w p t c einval 0

-- A refused call changes nothing but the caller's error number, and maybe its interrupt flag.
abbrev pub RefusedFor : World → Thread → Errno → ℕ → Status × Option Ptr → World → Type 0
RefusedFor w c e off (status, ret) g =
    (status ≡ fail)
    × (ret ≡ none)
    × (g.threads w.self ≡ some (record c { error = e; intr_off = off }))
    × SameThreads w g w.self w.self
    × SameLists w g

module _ (w : World) (p : Ptr) (t c : Thread) (want_ret : Bool) (caller : Live w w.self c) where
  -- A NULL handle is refused with EINVAL; the caller itself, and a thread that already waits for the caller, with
  -- EDEADLK; a thread whose descriptor still exists and that has a joiner with EINVAL, and the caller's interrupts
  -- are on then. Nothing else changes, and the target's lock is free again.
  pub join_errors :
      (e : Errno) (off : ℕ)
      → Cause w p t c e off
      → Returns (RefusedFor w c e off) (thread_join p want_ret w)
  join_errors _ _ (no_thread null) = join_invalid w p t c want_ret caller null
  join_errors _ _ (deadlock target nj who) = join_deadlock w p t c want_ret caller target nj who
  join_errors _ _ (taken target nj ne nd free occupied) =
      Returns-mono _ (RefusedFor w c einval 0) (thread_join p want_ret w)
        (join_taken w p t c want_ret caller target ne nj nd free occupied)
        λ (status, ret) g (failed, nothing, at, mine, others, lists). (
          failed,
          nothing,
          mine,
          λ a n n'. elim (Bool-cases (a == p)) [
            | inl e ↦
                let same : a ≡ p = ground arith in
                ap g.threads same ∙ (at ∙ sym (ap w.threads same ∙ target.at))
            | inr e ↦ others a e n
          ],
          lists,
        )
