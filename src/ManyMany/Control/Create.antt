-- ===== src/ManyMany/Control/Create.antt =====
-- thread_create: what a new thread looks like, and what it does when memory is short.
use mathlib.Core.Path.{fun_ext}
use libthreads_c.Base.{
  ◌+◌, ◌%◌, ◌^◌, ◌≡◌, refl, Bool, true, false, Option, some, List, [], ◌∷◌, ◌++◌, ◌⊎◌, inl, inr,
  arith, ◌==◌, ==-refl, Bool-cases, ap,
}
use libthreads_c.Mods.Lock.{lock_acquire, lock_release, lock_init}
use libthreads_c.ManyMany.World.{
  Ptr, null, running, einval, fail, success, Status, Thread, World, ok, fault, Returns, put_thread,
}
use libthreads_c.ManyMany.Facts.{Holds, SameThreads}
use libthreads_c.ManyMany.Descr.{td_alloc}
use libthreads_c.ManyMany.Control.{thread_create}

-- Four results that are not NULL make a descriptor; what the code does not store stays as malloc
-- left it.
td_alloc_lem :
    (w : World) (td curr ret stack : Ptr) (rest : List Ptr)
    → w.memory ≡ td ∷ curr ∷ ret ∷ stack ∷ rest
    → (td == null) ≡ false
    → (curr == null) ≡ false
    → (stack == null) ≡ false
    → td_alloc w
      ≡ ok td
          (record (put_thread td
            (some (record w.indeterminate { curr_cxt = curr; ret_cxt = ret; stack = stack }))
            w) { memory = rest })
unfolding td_alloc
td_alloc_lem w td curr ret stack rest mem ntd ncurr nstack =
    simp (mem, ntd, ncurr, nstack, ==-refl)
      (ap (λ (th : Ptr → Option Thread). ok td (record w { threads = th; memory = rest }))
        (fun_ext (λ j. ground arith)))

-- A new thread `td` with the contexts `curr` and `ret` was made ready.
abbrev pub Created :
    World → Thread → Ptr → Ptr → Ptr → Ptr → Ptr → Ptr → Status × Ptr → World → Type 0
Created w c start arg td curr ret stack (status, handle) g =
    (status ≡ success)
    × (handle ≡ td)
    × (g.threads td
        ≡ some (record w.indeterminate {
          utid = w.nxt_utid;
          state = running;
          start = start;
          arg = arg;
          wait = 1;
          pend_sig = 0;
          curr_cxt = curr;
          ret_cxt = ret;
          stack = stack;
          join_thread = null;
          wait_for = null;
          intr_off = 0;
          mem_lock = 1;
        }))
    × (g.threads w.self ≡ some (record c { intr_off = 0 }))
    × (g.mmrll ≡ w.mmrll ++ td ∷ [])
    × (g.nxt_utid ≡ (w.nxt_utid + 1) % 2 ^ 32)
    × (g.mmrll_lk ≡ 1)
    × (g.nxt_utid_lk ≡ 1)
    × SameThreads w g td w.self

-- A new thread gets the next identifier, starts out running with nobody waiting for it, and
-- stands at the end of the ready list; the locks are free again and the caller's interrupts are
-- on.
pub create_success :
    (w : World) (c : Thread) (start arg td curr ret stack : Ptr) (rest : List Ptr)
    → Holds w w.self c
    → (start == null) ≡ false
    → w.memory ≡ td ∷ curr ∷ ret ∷ stack ∷ rest
    → (td == null) ≡ false
    → (curr == null) ≡ false
    → (stack == null) ≡ false
    → (w.self == td) ≡ false
    → (td == w.self) ≡ false
    → w.mmrll_lk ≡ 1
    → w.nxt_utid_lk ≡ 1
    → Returns (Created w c start arg td curr ret stack) (thread_create true start arg w)
unfolding thread_create lock_acquire lock_release lock_init
create_success w c start arg td curr ret stack rest caller st mem ntd ncurr nstack ne ne' free uf =
    rw (st, td_alloc_lem w td curr ret stack rest mem ntd ncurr nstack)
      (simp (caller.not_null, caller.at, ntd, ne, ne', free, uf, ==-refl)
        (refl, refl, refl, refl, refl, refl, refl, refl, λ a n m. simp (n, m) refl))

-- An invalid handle pointer or start routine is refused with EINVAL, before anything is allocated.
pub create_invalid :
    (w : World) (c : Thread) (thread : Bool) (start arg : Ptr)
    → Holds w w.self c
    → (thread ≡ false) ⊎ (start ≡ null)
    → Returns
        (λ (status, handle) g.
          (status ≡ fail)
          × (g.threads w.self ≡ some (record c { error = einval }))
          × SameThreads w g w.self w.self
          × (g.memory ≡ w.memory)
          × (g.mmrll ≡ w.mmrll))
        (thread_create thread start arg w)
unfolding thread_create
create_invalid w c thread start arg caller (inl e) =
    simp (e, caller.not_null, caller.at, ==-refl) (refl, refl, λ a n m. simp n refl, refl, refl)
create_invalid w c thread start arg caller (inr e) = elim (Bool-cases thread) [
  | inl valid ↦
      simp (e, valid, caller.not_null, caller.at, ==-refl)
        (refl, refl, λ a n m. simp n refl, refl, refl)
  | inr invalid ↦
      simp (e, invalid, caller.not_null, caller.at, ==-refl)
        (refl, refl, λ a n m. simp n refl, refl, refl)
]

-- When malloc fails for the descriptor, for the context or for the stack, the call faults: the
-- branch that reports EAGAIN is never reached.
pub create_out_of_memory :
    (w : World) (start arg : Ptr)
    → (start == null) ≡ false
    → w.memory ≡ []
    → thread_create true start arg w ≡ fault
unfolding thread_create td_alloc
create_out_of_memory w start arg st mem = simp (st, mem)
