-- ===== src/Hybrid/Control/Join.antt =====
-- thread_join of the hybrid library on each of its branches, by the types of the two threads.
pub mod Over
use libthreads_c.Base.{
  ℕ, ◌≡◌, refl, Bool, true, false, Option, none, some, inl, inr, Bool-cases, ◌==◌, ==-refl, ==_sym,
  ◌∙◌, ap, sym, if◌then◌else◌, List, ◌∷◌, update, arith, subst,
}
use libthreads_c.Mods.Lock.{lock_acquire, lock_release}
use libthreads_c.Hybrid.World.{
  Ptr, null, running, joined, wait_join, Errno, einval, edeadlk, Status, fail, success, Contexts,
  Members, one_one, many_many, Thread, World, Event, stack_unmapped, freed, futex_waited, Swaps,
  Returns, ◌>>◌,
}
use libthreads_c.Hybrid.Facts.{
  Holds, Live, Allocated, SameThreads, SameLists, set_intr, members-cases,
}
use libthreads_c.Hybrid.Descr.{is_joined, wait_val_of}
use libthreads_c.Hybrid.Control.{thread_join, join_finish, after_switch}

-- A refused call changes nothing but the error number of the caller, and maybe its interrupt flag.
abbrev pub Refused : World → Thread → Errno → Members → Status × Option Ptr → World → Type 0
Refused w c e members (status, ret) g =
    (status ≡ fail)
    × (ret ≡ none)
    × (g.threads w.self ≡ some (record c { error = e; members = members }))
    × SameThreads w g w.self w.self
    × SameLists w g

-- Why thread_join refuses to join `p`, with the error number and the members that the caller then has.
pub data Cause (w : World) (p : Ptr) (t c : Thread) : Errno → Members → Type 0 where
  over_already : is_joined t.state ≡ true → Cause w p t c einval c.members
  itself : is_joined t.state ≡ false → (w.self == p) ≡ true → Cause w p t c edeadlk c.members
  mutual_wait :
      is_joined t.state ≡ false
      → (w.self == p) ≡ false
      → (c.join_td == p) ≡ true
      → Cause w p t c edeadlk c.members
  taken :
      is_joined t.state ≡ false
      → (w.self == p) ≡ false
      → (c.join_td == p) ≡ false
      → t.mem_lock ≡ 1
      → (t.join_td == null) ≡ false
      → Cause w p t c einval (set_intr 0 c.members)

module _ (w : World) (p : Ptr) (t c : Thread) (want_ret : Bool) (caller : Holds w w.self c)
    (target : Holds w p t) where
  unlocked_again :
      t.mem_lock ≡ 1
      → (a : Ptr)
      → update
          (update w.threads p (some (record t { mem_lock = 0 })))
          p
          (some (record t { mem_lock = 1 }))
          a
        ≡ w.threads a
  unlocked_again free a = elim (Bool-cases (a == p)) [
    | inl e ↦
        let same : a ≡ p = ground arith in
        simp e (
          ap (λ (l : ℕ). some (record t { mem_lock = l })) (sym free)
          ∙ sym (ap w.threads same ∙ target.at))
    | inr e ↦ simp e refl
  ]

  -- A join of a thread that was joined before is refused with EINVAL, one of the caller itself or of a
  -- thread that already waits for the caller with EDEADLK, and one of a thread that has a joiner with
  -- EINVAL, the interrupts of a many-many caller being on then. Nothing else changes, and the target's lock
  -- is free again.
  pub join_fails :
      (e : Errno) (m : Members)
      → Cause w p t c e m
      → Returns (Refused w c e m) (thread_join p want_ret w)
  unfolding thread_join lock_acquire lock_release
  join_fails _ _ (over_already j) =
      simp (target.not_null, target.at, caller.not_null, caller.at, j, ==-refl)
        (refl, refl, refl, λ a n m. simp n refl, (refl, refl, refl))
  join_fails _ _ (itself nj self) =
      simp (target.not_null, target.at, caller.not_null, caller.at, nj, self, ==-refl)
        (refl, refl, refl, λ a n m. simp n refl, (refl, refl, refl))
  join_fails _ _ (mutual_wait nj ne waits) =
      simp (target.not_null, target.at, caller.not_null, caller.at, nj, ne, waits, ==-refl)
        (refl, refl, refl, λ a n m. simp n refl, (refl, refl, refl))
  join_fails _ _ (taken nj ne nd free occupied) =
      let en : (p == w.self) ≡ false = ==_sym p w.self ∙ ne in
      elim (members-cases c.members) [
        | inl (ktid, stack, e) ↦
            simp
              (
                target.not_null, target.at, caller.not_null, caller.at, nj, ne, en, nd, free,
                occupied, e, ==-refl,
              )
              (refl, refl, refl, λ a n m. simp n (unlocked_again free a), (refl, refl, refl))
        | inr (x, e) ↦
            simp
              (
                target.not_null, target.at, caller.not_null, caller.at, nj, ne, en, nd, free,
                occupied, e, ==-refl,
              )
              (refl, refl, refl, λ a n m. simp n (unlocked_again free a), (refl, refl, refl))
      ]

-- What td_oo_free and td_mm_free ask for, latest first.
abbrev pub freeing : Members → List Event → List Event
freeing (one_one ktid stack) es = stack_unmapped stack ∷ es
freeing (many_many m) es = freed m.ret_cxt ∷ freed m.curr_cxt ∷ stack_unmapped m.stack ∷ es

-- The caller has joined `p`, whose descriptor was `t`.
abbrev pub Finished : World → Ptr → Thread → Thread → Bool → Status × Option Ptr → World → Type 0
Finished w p t c want_ret (status, ret) g =
    (status ≡ success)
    × (ret ≡ (if want_ret then some t.ret else none))
    × (g.threads p ≡ some (record t { state = joined }))
    × (g.threads w.self
        ≡ some (record c { state = running; wait_join_td = null; members = set_intr 0 c.members }))
    × (g.events ≡ freeing t.members w.events)
    × SameThreads w g p w.self
    × SameLists w g

-- The one-one caller sleeps on the wait word of `p`, whose lock is free.
abbrev pub Asleep : World → Ptr → Thread → Thread → World → Type 0
Asleep w p t c g =
    (g.threads p ≡ some (record t { join_td = w.self; mem_lock = 1 }))
    × (g.threads w.self ≡ some (record c { wait_join_td = p; state = wait_join }))
    × (g.events ≡ futex_waited p ∷ w.events)
    × SameThreads w g p w.self
    × SameLists w g

-- The many-many caller is on its way to the dispatcher, with the lock of `p`.
abbrev pub Switching : World → Ptr → Thread → Thread → World → Type 0
Switching w p t c g =
    (g.threads p ≡ some (record t { join_td = w.self; mem_lock = 0 }))
    × (g.threads w.self
        ≡ some (record c { wait_join_td = p; state = wait_join; members = set_intr 1 c.members }))
    × SameThreads w g p w.self
    × SameLists w g

module _ (w : World) (p : Ptr) (t c : Thread) (want_ret : Bool) (target : Holds w p t)
    (ne : (w.self == p) ≡ false) where
  en : (p == w.self) ≡ false
  en = ==_sym p w.self ∙ ne

  -- The rest of the call makes the caller run again, with its interrupts on if it is of the type
  -- many-many, returns what the target left as its result if that was asked for, marks the target as
  -- joined, and frees its stack and its contexts; the descriptor stays allocated.
  pub join_finish_lem :
      Holds w w.self c
      → Allocated t.members
      → Returns (Finished w p t c want_ret) (join_finish w.self p want_ret w)
  unfolding join_finish
  join_finish_lem caller live = elim (members-cases c.members) [
    | inl (k, s, e) ↦ elim (members-cases t.members) [
      | inl (k', s', e') ↦
          simp (target.not_null, target.at, caller.not_null, caller.at, ne, en, e, e', ==-refl)
            (refl, refl, refl, refl, refl, λ a n m. simp (n, m) refl, (refl, refl, refl))
      | inr (x', e') ↦
          let live' : Allocated (many_many x') = subst Allocated e' live in
          simp
            (
              target.not_null, target.at, caller.not_null, caller.at, ne, en, e, e', live'.0,
              ==-refl,
            )
            (refl, refl, refl, refl, refl, λ a n m. simp (n, m) refl, (refl, refl, refl))
    ]
    | inr (x, e) ↦ elim (members-cases t.members) [
      | inl (k', s', e') ↦
          simp (target.not_null, target.at, caller.not_null, caller.at, ne, en, e, e', ==-refl)
            (refl, refl, refl, refl, refl, λ a n m. simp (n, m) refl, (refl, refl, refl))
      | inr (x', e') ↦
          let live' : Allocated (many_many x') = subst Allocated e' live in
          simp
            (
              target.not_null, target.at, caller.not_null, caller.at, ne, en, e, e', live'.0,
              ==-refl,
            )
            (refl, refl, refl, refl, refl, λ a n m. simp (n, m) refl, (refl, refl, refl))
    ]
  ]

  -- A one-one caller that may join a thread that has not finished leaves its handle in that thread's
  -- descriptor, releases that thread's lock and sleeps in the kernel on that thread's wait word, which
  -- holds the value that the call gives to the kernel; what is left of the call is `join_finish`.
  pub join_sleeps :
      (ktid : ℕ) (stack : Ptr)
      → Holds w w.self c
      → c.members ≡ one_one ktid stack
      → is_joined t.state ≡ false
      → (c.join_td == p) ≡ false
      → t.mem_lock ≡ 1
      → t.join_td ≡ null
      → (t.wait == 0) ≡ false
      → t.wait ≡ wait_val_of t.members
      → Swaps (Asleep w p t c) (join_finish w.self p want_ret) (thread_join p want_ret w)
  unfolding thread_join lock_acquire lock_release
  join_sleeps k s caller e nj nd free nojoin over word =
      let same : (t.wait == wait_val_of t.members) ≡ true = ground arith in
      simp
        (
          target.not_null, target.at, caller.not_null, caller.at, ne, en, e, nj, nd, free, nojoin,
          over, same, ==-refl,
        )
        ((refl, refl, refl, λ a n m. simp (n, m) refl, (refl, refl, refl)), λ w'. refl)

  -- A many-many caller goes to the dispatcher instead, with that thread's lock held and its own
  -- interrupts off. Once it is resumed it waits for the wait word to become zero if the target is of
  -- the type one-one.
  pub join_switches :
      (x : Contexts)
      → Live w w.self c x
      → is_joined t.state ≡ false
      → (c.join_td == p) ≡ false
      → t.mem_lock ≡ 1
      → t.join_td ≡ null
      → (t.wait == 0) ≡ false
      → Swaps
          (Switching w p t c)
          (do after_switch p; join_finish w.self p want_ret)
          (thread_join p want_ret w)
  unfolding thread_join lock_acquire lock_release
  join_switches x caller nj nd free nojoin over =
      simp
        (
          target.not_null, target.at, caller.not_null, caller.at, caller.members_at, caller.curr,
          caller.ret_, ne, en, nj, nd, free, nojoin, over, ==-refl,
        )
        ((refl, refl, λ a n m. simp (n, m) refl, (refl, refl, refl)), λ w'. refl)
