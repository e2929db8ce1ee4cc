-- ===== src/ManyMany/Dispatch/Stuck.antt =====
-- A dispatcher that has no other beside it, and a lock that a preempted thread took with it.
use libthreads_c.Base.{
  ℕ, ◌≡◌, ◌≢◌, ◌∙◌, refl, sym, ap, Bool, false, inl, inr, arith, Bool-cases, ◌==◌, ==-refl, update,
}
use libthreads_c.ManyMany.Dispatch.{
  Pc, loop, chosen, sending, prepared, running, yielded, exiting, settling, leaving, waking,
  parking, joining, testing, registered, refused, returning, killing, signalling, Context, plain,
  kill_waits, kill_holds, kill_enables, join_holds, awaiting, inside, resumed, Preemptible, waits,
  Inside, before_lock, with_lock, registered_runs, registered_waits, found_over, resumed_waits,
  resumed_runs, enabling, resuming, join_done, kill_enable, preempt_inside, System, td_lock, Step,
  choose, skip, send_lock, send_unlock, enter, yield, repeat, requeue, create, join_call, join_lock,
  join_joined, join_refuse, join_waits, join_return, join_parked, kill_call, kill_lock, kill_unlock,
  exit, exit_lock, exit_over, exit_tests, wake, Reachable,
}
use libthreads_c.ManyMany.Dispatch.Places.{context_lock}
use libthreads_c.ManyMany.Dispatch.Order.{Reachable-Good}

-- What follows while the dispatcher `k` is the only one that chooses threads.
pub data ByOne (b : Bool) (k : ℕ) (s : System) : System → Type 0 where
  none : ByOne b k s s
  more :
      (g h : System)
      → ByOne b k s g
      → Step b g h
      → ((j : ℕ) → j ≢ k → h.pc j ≡ loop)
      → ByOne b k s h

abbrev pub Spins : ℕ → ℕ → System → Type 0
Spins k q g = (g.pc k ≡ chosen q) × (waits (g.context q) ≡ false) × (g.mem_lock q ≡ 0)

resumed-busy :
    (p : ℕ) (c : Context)
    → Preemptible c
    → (resumed p c ≢ loop) × ((q : ℕ) → resumed p c ≢ chosen q)
resumed-busy p plain m = ((λ e. cc e), λ q e. cc e)
resumed-busy p (awaiting r) m = ((λ e. cc e), λ q e. cc e)
resumed-busy p (kill_waits r) m = ((λ e. cc e), λ q e. cc e)
resumed-busy p (kill_holds r) m = ((λ e. cc e), λ q e. cc e)
resumed-busy p (kill_enables r) m = ((λ e. cc e), λ q e. cc e)
resumed-busy p (join_holds r) m = ((λ e. cc e), λ q e. cc e)
resumed-busy p (inside w at) m = absurd m

Inside-busy :
    {p : ℕ} {at after : Pc} {w : Bool}
    → Inside p at after w
    → (at ≢ loop) × ((q : ℕ) → at ≢ chosen q)
Inside-busy (before_lock r) = ((λ e. cc e), λ q e. cc e)
Inside-busy (with_lock r) = ((λ e. cc e), λ q e. cc e)
Inside-busy (registered_runs r) = ((λ e. cc e), λ q e. cc e)
Inside-busy (registered_waits r) = ((λ e. cc e), λ q e. cc e)
Inside-busy (found_over r) = ((λ e. cc e), λ q e. cc e)
Inside-busy (resumed_waits r) = ((λ e. cc e), λ q e. cc e)
Inside-busy (resumed_runs r) = ((λ e. cc e), λ q e. cc e)

-- A round of td_lock leaves it where it is.
td_lock-Spins :
    (k q : ℕ) (g : System) → Spins k q g → Spins k q (td_lock k q (sending q) (chosen q) g)
unfolding td_lock
td_lock-Spins k q g (at, runs, taken) =
    let no : (g.mem_lock q == 1) ≡ false = ground (arith, taken) in
    simp no (simp ==-refl refl, runs, simp ==-refl taken)

module _ (k q : ℕ) (g : System) (at : Spins k q g) (idle : (j : ℕ) → j ≢ k → g.pc j ≡ loop) where
  -- No dispatcher is at any other point.
  nowhere : {A : Type 0} (j : ℕ) (a : Pc) → g.pc j ≡ a → a ≢ loop → a ≢ chosen q → A
  nowhere j a h not_loop not_chosen = elim (Bool-cases (j == k)) [
    | inl e ↦ let j_k : j ≡ k = ground arith in absurd (not_chosen (sym h ∙ ap g.pc j_k ∙ at.0))
    | inr e ↦ absurd (not_loop (sym h ∙ idle j (ground arith)))
  ]

  Spins-step :
      {b : Bool} (h : System) → Step b g h → ((j : ℕ) → j ≢ k → h.pc j ≡ loop) → Spins k q h
  Spins-step _ (choose j p rest h m) still = elim (Bool-cases (j == k)) [
    | inl e ↦ let j_k : j ≡ k = ground arith in absurd (cc (h, ap g.pc j_k, at.0))
    | inr e ↦
        let now : update g.pc j (chosen p) j ≡ chosen p = simp ==-refl refl in
        absurd (cc (now, still j (ground arith)))
  ]
  Spins-step _ (send_lock j p runs h) still = elim (Bool-cases (j == k)) [
    | inl e ↦
        let j_k : j ≡ k = ground arith in
        let p_q : p ≡ q = cc (h, ap g.pc j_k, at.0) in rw (j_k, p_q) (td_lock-Spins k q g at)
    | inr e ↦ absurd (cc (h, idle j (ground arith)))
  ]
  Spins-step _ (yield j p c busy h) still =
      nowhere j (resumed p c) h (resumed-busy p c busy).0 ((resumed-busy p c busy).1 q)
  Spins-step _ (skip j p idle' h) still = elim (Bool-cases (j == k)) [
    | inl e ↦
        let j_k : j ≡ k = ground arith in
        let p_q : p ≡ q = cc (h, ap g.pc j_k, at.0) in
        absurd (cc (at.1, ap (λ (r : ℕ). waits (g.context r)) p_q, idle'))
    | inr e ↦ absurd (cc (h, idle j (ground arith)))
  ]
  Spins-step _ (exit_lock j p h) still = nowhere j (exiting p) h (λ e. cc e) (λ e. cc e)
  Spins-step _ (send_unlock j p h) still = nowhere j (sending p) h (λ e. cc e) (λ e. cc e)
  Spins-step _ (enter j p h) still = nowhere j (prepared p) h (λ e. cc e) (λ e. cc e)
  Spins-step _ (repeat j p h) still = nowhere j (yielded p) h (λ e. cc e) (λ e. cc e)
  Spins-step _ (requeue j p h) still = nowhere j (yielded p) h (λ e. cc e) (λ e. cc e)
  Spins-step _ (create j p h) still = nowhere j (running p) h (λ e. cc e) (λ e. cc e)
  Spins-step _ (join_call j p r n o m f h) still = nowhere j (running p) h (λ e. cc e) (λ e. cc e)
  Spins-step _ (join_lock j p r h) still = nowhere j (joining p r) h (λ e. cc e) (λ e. cc e)
  Spins-step _ (join_joined j p r h) still = nowhere j (testing p r) h (λ e. cc e) (λ e. cc e)
  Spins-step _ (join_refuse j p r h) still = nowhere j (refused p r) h (λ e. cc e) (λ e. cc e)
  Spins-step _ (join_waits j p r h) still = nowhere j (registered p r) h (λ e. cc e) (λ e. cc e)
  Spins-step _ (join_return j p r h) still = nowhere j (returning p r) h (λ e. cc e) (λ e. cc e)
  Spins-step _ (join_parked j r h) still = nowhere j (parking r) h (λ e. cc e) (λ e. cc e)
  Spins-step _ (kill_call j p r n o h) still = nowhere j (running p) h (λ e. cc e) (λ e. cc e)
  Spins-step _ (kill_lock j p r h) still = nowhere j (killing p r) h (λ e. cc e) (λ e. cc e)
  Spins-step _ (kill_unlock j p r h) still = nowhere j (signalling p r) h (λ e. cc e) (λ e. cc e)
  Spins-step _ (join_done j p r h) still = nowhere j (resuming p r) h (λ e. cc e) (λ e. cc e)
  Spins-step _ (kill_enable j p r h) still = nowhere j (enabling p r) h (λ e. cc e) (λ e. cc e)
  Spins-step _ (preempt_inside j p point after w d intr where_at h) still =
      nowhere j point h (Inside-busy where_at).0 ((Inside-busy where_at).1 q)
  Spins-step _ (exit j p h) still = nowhere j (running p) h (λ e. cc e) (λ e. cc e)
  Spins-step _ (exit_over j p h) still = nowhere j (settling p) h (λ e. cc e) (λ e. cc e)
  Spins-step _ (exit_tests j p h) still = nowhere j (leaving p) h (λ e. cc e) (λ e. cc e)
  Spins-step _ (wake j p h) still = nowhere j (waking p) h (λ e. cc e) (λ e. cc e)

ByOne-Spins :
    {b : Bool} (k q : ℕ) (s : System)
    → Spins k q s
    → ((j : ℕ) → j ≢ k → s.pc j ≡ loop)
    → (g : System) → ByOne b k s g
    → Spins k q g × ((j : ℕ) → j ≢ k → g.pc j ≡ loop)
ByOne-Spins k q s at idle _ none = (at, idle)
ByOne-Spins k q s at idle _ (more g h way step still) =
    let (before, idle') = ByOne-Spins k q s at idle g way in
    (Spins-step k q g before idle' h step still, still)

-- Where no thread has been preempted inside thread_join before td_enable_intr, and there is one dispatcher: a thread
-- that is preempted between td_lock and td_unlock, in thread_kill or in a join that is refused, stops the program once its target is chosen that is running by its state: the dispatcher
-- tries to take the target's lock for ever.
pub spins_for_ever :
    (s : System)
    → Reachable false s
    → (b : Bool) (k p q : ℕ) → q ≢ 0
    → context_lock (s.context p) ≡ q
    → s.pc k ≡ chosen q
    → waits (s.context q) ≡ false
    → ((j : ℕ) → j ≢ k → s.pc j ≡ loop)
    → (g : System) → ByOne b k s g
    → (g.pc k ≡ chosen q) × (g.mem_lock q ≡ 0)
spins_for_ever s r b k p q n held h runs idle g way =
    let (place, inv, locks) = Reachable-Good s r in
    let (taken, out, only) = locks.apart p q n held in
    let at = (ByOne-Spins k q s (h, runs, taken) idle g way).0 in (at.0, at.2)
