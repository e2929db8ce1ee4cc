-- ===== src/ManyMany/Dispatch/Steps.antt =====
-- Every step of the dispatchers keeps the invariant and the locks.
use libthreads_c.Base.{
  ℕ, ◌≡◌, ◌∙◌, refl, sym, ap, true, false, inl, inr, arith, update, Bool-cases, ◌==◌,
}
use libthreads_c.ManyMany.Dispatch.{
  Pc, loop, chosen, sending, prepared, running, yielded, exiting, settling, leaving, waking,
  parking, joining, testing, registered, refused, returning, killing, signalling, enabling,
  resuming, awaiting, System, td_unlock, Step, choose, skip, kill_call, kill_lock, kill_unlock,
  kill_enable, join_done, preempt_inside, send_lock, send_unlock, enter, yield, repeat, requeue,
  create, join_call, join_lock, join_joined, join_refuse, join_waits, join_return, join_parked,
  exit, exit_lock, exit_over, exit_tests, wake,
}
use libthreads_c.ManyMany.Dispatch.Places.{
  in_hand, locked, ends, Place, gone, on, waits_for, Local, Inv, Locks,
}
use libthreads_c.ManyMany.Dispatch.Moves.{Inv-nobody, Inv-wakes, Inv-register}
use libthreads_c.ManyMany.Dispatch.Lists.{Inv-choose}
use libthreads_c.ManyMany.Dispatch.Turns.{Inv-park, Inv-settle}
use libthreads_c.ManyMany.Dispatch.Contexts.{Locks-awaiting}
use libthreads_c.ManyMany.Dispatch.Locks.{Locks-same, Locks-release, Locks-alone}
use libthreads_c.ManyMany.Dispatch.Switches.{
  Good-enter, Good-yield, Good-requeue, Good-create, Good-wake,
}
use libthreads_c.ManyMany.Dispatch.Goto.{
  Good, Quiet, at_pc, Good-goto, Good-intr, Good-unlock, Good-lock,
}

-- What is the same for every move: written out once, with the obligations that the points settle by computing.
module _ (s : System) (place : ℕ → Place) (inv : Inv s place)
    (locks : Locks s.mem_lock s.context s.pc) where
  quiet :
      (k : ℕ) (a b : Pc)
      → s.pc k ≡ a
      → in_hand b ≡ in_hand a
      → ends b ≡ ends a
      → ((q : ℕ) → a ≡ registered (s.join_thread q) q → s.over q ≡ true)
      → Local s place k b
      → Quiet s place inv locks k a b
  quiet k a b h e e' f l = record { from = h; hand = e; still = e'; free = f; mine = l }

  pub Good-step : (g : System) → Step false s g → Good g
  unfolding td_unlock
  Good-step _ (choose k p rest h m) = (
    update place p (on k),
    Inv-choose s place inv k p rest h m,
    Locks-same s.mem_lock s.context s.pc locks k (chosen p) (sym (ap locked h)),
  )
  Good-step _ (skip k p idle h) =
      Good-goto s place inv locks k (chosen p) (prepared p)
        (quiet k (chosen p) (prepared p) h refl refl (λ q. cc)
          (at_pc s place inv locks k (chosen p) h))
        refl
  Good-step _ (send_lock k p runs h) =
      let l = at_pc s place inv locks k (chosen p) h in
      Good-lock s place inv locks k p (chosen p) (sending p)
        (quiet k (chosen p) (sending p) h refl refl (λ q. cc) l)
        (quiet k (chosen p) (chosen p) h refl refl (λ q. cc) l) l.0.0 refl refl
  Good-step _ (send_unlock k p h) =
      let l = at_pc s place inv locks k (sending p) h in
      Good-unlock s place inv locks k p (sending p) (prepared p)
        (quiet k (sending p) (prepared p) h refl refl (λ q. cc) l) l.0.0 refl refl
  Good-step _ (enter k p h) = Good-enter s place inv locks k p h
  Good-step _ (yield k p c busy h) = Good-yield s place inv locks k p c busy h
  Good-step _ (repeat k p h) =
      Good-goto s place inv locks k (yielded p) (prepared p)
        (quiet k (yielded p) (prepared p) h refl refl (λ q. cc)
          (at_pc s place inv locks k (yielded p) h))
        refl
  Good-step _ (requeue k p h) = Good-requeue s place inv locks k p h
  Good-step _ (create k p h) = Good-create s place inv locks k p h
  Good-step _ (join_call k p q n older other free h) =
      Good-intr s place inv locks k p true (running p) (joining p q)
        (quiet k (running p) (joining p q) h refl refl (λ r. cc)
          (at_pc s place inv locks k (running p) h, n))
        refl
  Good-step _ (join_lock k p q h) =
      let l = at_pc s place inv locks k (joining p q) h in
      Good-lock s place inv locks k q (joining p q) (testing p q)
        (quiet k (joining p q) (testing p q) h refl refl (λ r. cc) l)
        (quiet k (joining p q) (joining p q) h refl refl (λ r. cc) l) l.1 refl refl
  Good-step _ (join_joined k p q h) =
      let l = at_pc s place inv locks k (testing p q) h in
      elim (Bool-cases (s.join_thread q == 0)) [
        | inl nobody ↦ simp nobody (
          place,
          Inv-register s place inv k p q h (ground (arith, nobody)) (λ j e.
              let j_k =
                Locks-alone s.mem_lock s.context s.pc locks k loop q j l.1 (ap locked e)
                  (ap locked h) in
              cc (ap s.pc j_k, e, h)),
          Locks-same s.mem_lock s.context s.pc locks k (registered p q) (sym (ap locked h)),
        )
        | inr somebody ↦ simp somebody (
            Good-intr s place inv locks k p false (testing p q) (refused p q)
              (quiet k (testing p q) (refused p q) h refl refl (λ r. cc) l) refl)
      ]
  Good-step _ (join_refuse k p q h) =
      let l = at_pc s place inv locks k (refused p q) h in
      Good-unlock s place inv locks k q (refused p q) (running p)
        (quiet k (refused p q) (running p) h refl refl (λ r. cc) l.0) l.1 refl refl
  Good-step _ (join_waits k p q h) =
      let (l, n, e) = at_pc s place inv locks k (registered p q) h in
      elim (Bool-cases (s.over q)) [
        | inl over ↦ simp over (
            Good-goto s place inv locks k (registered p q) (returning p q)
              (quiet k (registered p q) (returning p q) h refl refl
                (λ r m. let q_r : q ≡ r = cc m in ap s.over (sym q_r) ∙ over) (l, n))
              refl)
        | inr still ↦ simp still (
          update place p (waits_for q),
          Inv-park s place inv k p q h still,
          Locks-same s.mem_lock (update s.context p (awaiting q)) s.pc
              (Locks-awaiting s.mem_lock s.context s.pc locks p q n) k (parking q)
              (sym (ap locked h)),
        )
      ]
  Good-step _ (join_return k p q h) =
      let l = at_pc s place inv locks k (returning p q) h in
      Good-unlock s place inv locks k q (returning p q) (resuming p q)
        (quiet k (returning p q) (resuming p q) h refl refl (λ r. cc) l) l.1 refl refl
  Good-step _ (join_done k p q h) =
      let l = at_pc s place inv locks k (resuming p q) h in
      Good-intr s place inv locks k p false (resuming p q) (running p)
        (quiet k (resuming p q) (running p) h refl refl (λ r. cc) l.0) refl
  Good-step _ (join_parked k q h) =
      Good-unlock s place inv locks k q (parking q) loop
        (quiet k (parking q) loop h refl refl (λ r. cc) tt)
        (at_pc s place inv locks k (parking q) h) refl refl
  Good-step _ (kill_call k p q n older h) =
      Good-intr s place inv locks k q true (running p) (killing p q)
        (quiet k (running p) (killing p q) h refl refl (λ r. cc)
          (at_pc s place inv locks k (running p) h, n))
        refl
  Good-step _ (kill_lock k p q h) =
      let l = at_pc s place inv locks k (killing p q) h in
      Good-lock s place inv locks k q (killing p q) (signalling p q)
        (quiet k (killing p q) (signalling p q) h refl refl (λ r. cc) l)
        (quiet k (killing p q) (killing p q) h refl refl (λ r. cc) l) l.1 refl refl
  Good-step _ (kill_unlock k p q h) =
      let l = at_pc s place inv locks k (signalling p q) h in
      Good-unlock s place inv locks k q (signalling p q) (enabling p q)
        (quiet k (signalling p q) (enabling p q) h refl refl (λ r. cc) l) l.1 refl refl
  Good-step _ (kill_enable k p q h) =
      let l = at_pc s place inv locks k (enabling p q) h in
      Good-intr s place inv locks k q false (enabling p q) (running p)
        (quiet k (enabling p q) (running p) h refl refl (λ r. cc) l.0) refl
  Good-step _ (exit k p h) =
      Good-intr s place inv locks k p true (running p) (exiting p)
        (quiet k (running p) (exiting p) h refl refl (λ q. cc)
          (at_pc s place inv locks k (running p) h))
        refl
  Good-step _ (exit_lock k p h) =
      let l = at_pc s place inv locks k (exiting p) h in
      Good-lock s place inv locks k p (exiting p) (settling p)
        (quiet k (exiting p) (settling p) h refl refl (λ q. cc) l)
        (quiet k (exiting p) (exiting p) h refl refl (λ q. cc) l) l.0 refl refl
  Good-step _ (exit_over k p h) =
      let (n, here) = at_pc s place inv locks k (settling p) h in
      (
        update place p gone,
        Inv-settle s place inv k p h (λ j r e.
            let j_k =
              Locks-alone s.mem_lock s.context s.pc locks k loop p j n (ap locked e)
                (ap locked h) in
            cc (ap s.pc j_k, e, h)),
        Locks-same s.mem_lock s.context s.pc locks k (leaving p) (sym (ap locked h)),
      )
  Good-step _ (exit_tests k p h) =
      let (n, over, waiter) = at_pc s place inv locks k (leaving p) h in
      elim (Bool-cases (s.join_thread p == 0)) [
        | inl nobody ↦ simp nobody (
          place,
          Inv-nobody s place inv k p h _ (ground (arith, nobody)),
          Locks-release s.mem_lock s.context s.pc locks k loop p n refl (ap locked h),
        )
        | inr somebody ↦ simp somebody (
          place,
          Inv-wakes s place inv k p h _ (ground (arith, somebody)),
          Locks-release s.mem_lock s.context s.pc locks k (waking p) p n refl (ap locked h),
        )
      ]
  Good-step _ (wake k p h) = Good-wake s place inv locks k p h
  Good-step _ (preempt_inside k p at after w disturbed intr point h) = cc disturbed
