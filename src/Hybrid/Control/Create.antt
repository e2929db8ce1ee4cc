-- ===== src/Hybrid/Control/Create.antt =====
-- thread_create of the hybrid library for each type of thread, and its failures.
use libthreads_c.Base.{
  ℕ, ◌+◌, ◌%◌, ◌^◌, ◌<◌, ◌≡◌, refl, Bool, true, false, some, List, [], ◌∷◌, ◌++◌, ◌⊎◌, inl, inr,
  arith, ◌==◌, ==-refl, Bool-cases, ap,
}
use libthreads_c.Mods.Lock.{lock_acquire, lock_release, lock_init}
use libthreads_c.Mods.Utils.{minus_one}
use libthreads_c.Hybrid.World.{
  Ptr, null, running, einval, eagain, fail, success, Status, Members, one_one, many_many, Thread,
  World, cloned, Returns,
}
use libthreads_c.Hybrid.Facts.{Holds, SameThreads, SameLists, set_intr, members-cases}
use libthreads_c.Mods.Timer.{timer_set}
use libthreads_c.Hybrid.Control.{thread_create, type_one_one, type_many_many}

-- The calls take the next identifier, and its lock is free again.
abbrev pub Numbered : World → World → Type 0
Numbered w g = (g.nxt_utid ≡ (w.nxt_utid + 1) % 2 ^ 32) × (g.nxt_utid_lk ≡ 1)

-- The descriptor of a new one-one thread.
abbrev pub new_one_one : World → Ptr → Ptr → ℕ → ℕ → Ptr → Thread
new_one_one w start arg wait ktid stack = record w.indeterminate {
  utid = w.nxt_utid;
  state = running;
  wait = wait;
  start = start;
  arg = arg;
  join_td = null;
  wait_join_td = null;
  mem_lock = 1;
  members = one_one ktid stack;
}

-- A new one-one thread `td` runs on the kernel thread `ktid`.
abbrev pub CreatedOneOne : World → Ptr → Ptr → Ptr → Ptr → ℕ → Status × Ptr → World → Type 0
CreatedOneOne w start arg td stack ktid (status, handle) g =
    (status ≡ success)
    × (handle ≡ td)
    × (g.threads td ≡ some (new_one_one w start arg ktid ktid stack))
    × (g.events ≡ cloned td ktid ∷ w.events)
    × Numbered w g
    × SameThreads w g td td
    × SameLists w g

module _ (w : World) (c : Thread) (start arg td stack : Ptr) (rest : List Ptr) (ktid : ℕ)
    (ks : List ℕ) (caller : Holds w w.self c) (started : (start == null) ≡ false) where
  -- A one-one thread gets the next identifier, and starts out running on the kernel thread that clone
  -- made, whose number stands in its wait word; nobody joins it, its lock is free, and it is on no list.
  pub create_one_one_lem :
      w.memory ≡ td ∷ stack ∷ rest
      → (td == null) ≡ false
      → (stack == null) ≡ false
      → w.clones ≡ ktid ∷ ks
      → (ktid == minus_one) ≡ false
      → w.nxt_utid_lk ≡ 1
      → Returns
          (CreatedOneOne w start arg td stack ktid)
          (thread_create true start arg type_one_one w)
  unfolding thread_create lock_acquire lock_release lock_init
  create_one_one_lem mem ntd nstack clones up uf =
      simp (started, mem, ntd, nstack, clones, up, uf, ==-refl)
        (refl, refl, refl, refl, (refl, refl), λ a n m. simp n refl, (refl, refl, refl))

  -- When clone fails, the call fails with EAGAIN and stores the handle of the new descriptor all the same.
  -- Neither the descriptor nor its stack is given back, and the identifier is used up.
  pub create_clone_fails :
      w.memory ≡ td ∷ stack ∷ rest
      → (td == null) ≡ false
      → (stack == null) ≡ false
      → w.clones ≡ minus_one ∷ ks
      → (w.self == td) ≡ false
      → (td == w.self) ≡ false
      → w.nxt_utid_lk ≡ 1
      → Returns
          (λ (status, handle) g.
            (status ≡ fail)
            × (handle ≡ td)
            × (g.threads td ≡ some (new_one_one w start arg w.indeterminate.wait minus_one stack))
            × (g.threads w.self ≡ some (record c { error = eagain }))
            × (g.events ≡ w.events)
            × Numbered w g
            × SameThreads w g td w.self
            × SameLists w g)
          (thread_create true start arg type_one_one w)
  unfolding thread_create lock_acquire lock_release lock_init
  create_clone_fails mem ntd nstack clones ne en uf =
      simp (started, mem, ntd, nstack, clones, ne, en, uf, caller.not_null, caller.at, ==-refl)
        (refl, refl, refl, refl, refl, (refl, refl), λ a n m. simp (n, m) refl, (refl, refl, refl))

module _ (w : World) (c : Thread) (start arg td curr ret stack : Ptr) (rest : List Ptr)
    (caller : Holds w w.self c) (started : (start == null) ≡ false) where
  -- A many-many thread gets the next identifier, starts out running with nobody joining it, and stands at
  -- the end of the ready list. The lists' locks are free again, and the interrupts of a many-many caller on.
  pub create_many_many_lem :
      w.memory ≡ td ∷ curr ∷ ret ∷ stack ∷ rest
      → (td == null) ≡ false
      → (curr == null) ≡ false
      → (ret == null) ≡ false
      → (stack == null) ≡ false
      → (w.self == td) ≡ false
      → (td == w.self) ≡ false
      → w.mmrll_lk ≡ 1
      → w.nxt_utid_lk ≡ 1
      → Returns
          (λ (status, handle) g.
            (status ≡ success)
            × (handle ≡ td)
            × (g.threads td
                ≡ some (record w.indeterminate {
                  utid = w.nxt_utid;
                  state = running;
                  wait = 1;
                  start = start;
                  arg = arg;
                  join_td = null;
                  wait_join_td = null;
                  mem_lock = 1;
                  members = many_many (record {
                    curr_cxt = curr;
                    ret_cxt = ret;
                    stack = stack;
                    pend_sig = 0;
                    intr_off = 0;
                    timer = timer_set w.garbage w.garbage;
                  });
                }))
            × (g.threads w.self ≡ some (record c { members = set_intr 0 c.members }))
            × (g.mmrll ≡ w.mmrll ++ td ∷ [])
            × (g.mmrll_lk ≡ 1)
            × Numbered w g
            × SameThreads w g td w.self)
          (thread_create true start arg type_many_many w)
  unfolding thread_create lock_acquire lock_release lock_init
  create_many_many_lem mem ntd ncurr nret nstack ne en free uf = elim (members-cases c.members) [
    | inl (k, s, e) ↦
        simp
          (
            started, mem, ntd, ncurr, nret, nstack, ne, en, free, uf, caller.not_null, caller.at, e,
            ==-refl,
          )
          (
            refl,
            refl,
            refl,
            ap (λ (m : Members). some (record c { members = m })) e,
            refl,
            refl,
            (refl, refl),
            λ a n m. simp n refl,
          )
    | inr (x, e) ↦
        simp
          (
            started, mem, ntd, ncurr, nret, nstack, ne, en, free, uf, caller.not_null, caller.at, e,
            ==-refl,
          )
          (refl, refl, refl, refl, refl, refl, (refl, refl), λ a n m. simp (n, m) refl)
  ]

-- An invalid handle pointer, start routine or type is refused with EINVAL, before anything is allocated.
pub create_invalid :
    (w : World) (c : Thread) (thread : Bool) (start arg : Ptr) (type : ℕ)
    → Holds w w.self c
    → (thread ≡ false) ⊎ (start ≡ null) ⊎ (1 < type)
    → Returns
        (λ (status, handle) g.
          (status ≡ fail)
          × (g.threads w.self ≡ some (record c { error = einval }))
          × SameThreads w g w.self w.self
          × SameLists w g
          × (g.memory ≡ w.memory))
        (thread_create thread start arg type w)
unfolding thread_create
create_invalid w c thread start arg type caller (inl e) =
    simp (e, caller.not_null, caller.at, ==-refl)
      (refl, refl, λ a n m. simp n refl, (refl, refl, refl), refl)
create_invalid w c thread start arg type caller (inr (inl e)) = elim (Bool-cases thread) [
  | inl valid ↦
      simp (e, valid, caller.not_null, caller.at, ==-refl)
        (refl, refl, λ a n m. simp n refl, (refl, refl, refl), refl)
  | inr invalid ↦
      simp (e, invalid, caller.not_null, caller.at, ==-refl)
        (refl, refl, λ a n m. simp n refl, (refl, refl, refl), refl)
]
create_invalid w c thread start arg type caller (inr (inr big)) =
    let zero_no : (type == 0) ≡ false = ground arith in
    let one_no : (type == 1) ≡ false = ground arith in
    elim (Bool-cases thread) [
      | inl valid ↦ elim (Bool-cases (start == null)) [
        | inl e ↦
            simp (e, valid, zero_no, one_no, caller.not_null, caller.at, ==-refl)
              (refl, refl, λ a n m. simp n refl, (refl, refl, refl), refl)
        | inr e ↦
            simp (e, valid, zero_no, one_no, caller.not_null, caller.at, ==-refl)
              (refl, refl, λ a n m. simp n refl, (refl, refl, refl), refl)
      ]
      | inr invalid ↦
          simp (invalid, caller.not_null, caller.at, ==-refl)
            (refl, refl, λ a n m. simp n refl, (refl, refl, refl), refl)
    ]
