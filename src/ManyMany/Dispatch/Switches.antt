-- ===== src/ManyMany/Dispatch/Switches.antt =====
-- The steps that switch to a thread or from it, or put one on the ready list, keep the invariant and the locks.
use libthreads_c.Base.{
  ℕ, suc, ◌≡◌, ◌∙◌, refl, sym, ap, true, false, arith, update, update_other, ==-refl,
}
use libthreads_c.ManyMany.Dispatch.{
  loop, prepared, running, yielded, waking, Context, plain, resumed, Preemptible, System,
  td_set_cxt, td_ret_cxt, enqueue, thread_create,
}
use libthreads_c.ManyMany.Dispatch.Places.{
  in_hand, locked, ends, Place, unborn, listed, on, waits_for, asleep, Inv, Locks,
}
use libthreads_c.ManyMany.Dispatch.Moves.{Inv-quiet}
use libthreads_c.ManyMany.Dispatch.Lists.{stays, Inv-enqueue}
use libthreads_c.ManyMany.Dispatch.Contexts.{
  in_hand-resumed, ends-resumed, resumed-registered, Local-resumed, resumed-Local, Locks-resume,
  Locks-preempt,
}
use libthreads_c.ManyMany.Dispatch.Locks.{Locks-same}
use libthreads_c.ManyMany.Dispatch.Goto.{Good, at_pc}

module _ (s : System) (place : ℕ → Place) (inv : Inv s place)
    (locks : Locks s.mem_lock s.context s.pc) where
  -- The dispatcher switches to a thread, which goes on with what its context holds.
  pub Good-enter : (k p : ℕ) → s.pc k ≡ prepared p → Good (td_set_cxt k p s)
  Good-enter k p h =
      let c : Context = s.context p in
      let l = at_pc s place inv locks k (prepared p) h in
      (
        place,
        Inv-quiet s place inv k (resumed p c) s.mem_lock (update s.saved p false)
            (update s.context p plain) s.intr_off
            (λ a n. update_other s.saved p a false (λ e. n (ap place e ∙ l.0.1)))
            (in_hand-resumed p c (locks.named p) ∙ sym (ap in_hand h))
            (ends-resumed p c (locks.named p) ∙ sym (ap ends h)) (λ q e. cc (h, e))
            (Local-resumed (record s { saved = update s.saved p false }) place k p c l.0
              (locks.named p)),
        Locks-resume s.mem_lock s.context s.pc locks p k (ap locked h),
      )

  -- A thread gives its dispatcher back, or is preempted.
  pub Good-yield :
      (k p : ℕ) (c : Context)
      → Preemptible c
      → s.pc k ≡ resumed p c
      → Good (td_ret_cxt k p c (yielded p) s)
  Good-yield k p c m h =
      let (l, n) = resumed-Local s place k p c m (at_pc s place inv locks k (resumed p c) h) in
      (
        place,
        Inv-quiet s place inv k (yielded p) s.mem_lock (update s.saved p true)
            (update s.context p c) s.intr_off
            (λ a n. update_other s.saved p a true (λ e. n (ap place e ∙ l.1)))
            (sym (in_hand-resumed p c n) ∙ sym (ap in_hand h))
            (sym (ends-resumed p c n) ∙ sym (ap ends h))
            (λ q e. absurd (resumed-registered p (s.join_thread q) q c n (sym h ∙ e)))
            (l, simp ==-refl refl),
        Locks-preempt s.mem_lock s.context s.pc locks p k c (yielded p) h n refl,
      )

  -- A thread that was switched from goes to the end of the ready list.
  pub Good-requeue : (k p : ℕ) → s.pc k ≡ yielded p → Good (enqueue k p loop s)
  Good-requeue k p h =
      let ((n, here), saved) = at_pc s place inv locks k (yielded p) h in
      (
        update place p listed,
        Inv-enqueue s place inv k p (on k) loop s.created here
            (record {
              not_null = n;
              saved = saved;
              moves = (λ z. cc, λ z. cc);
              mine = λ j j_k z. j_k (cc z);
              awaited = λ j q m z. cc;
              hand = λ a m a_p e. absurd (a_p (sym e ∙ ap in_hand h));
              met = λ q m e. absurd (m (sym e ∙ ap ends h));
              no_end = refl;
              not_registered = λ q e. cc (h, e);
              newer = λ a a_p m. m;
              older = λ a m. ((λ e. cc (inv.fresh a m, ap place e, here)), m);
            })
            tt,
        Locks-same s.mem_lock s.context s.pc locks k loop (sym (ap locked h)),
      )

  -- A thread that is created goes there too.
  pub Good-create : (k p : ℕ) → s.pc k ≡ running p → Good (thread_create k p s)
  Good-create k p h =
      let new : ℕ = suc s.created in
      let (n, here) = at_pc s place inv locks k (running p) h in
      let unmade : place new ≡ unborn = inv.fresh new (omega arith) in
      (
        update place new listed,
        Inv-enqueue s place inv k new unborn (running p) new unmade
            (record {
              not_null = omega arith;
              saved = inv.kept new (ap asleep unmade);
              moves = (λ z. cc, λ z. cc);
              mine = λ j j_k z. cc;
              awaited = λ j q m z. cc;
              hand = λ a m a_p e. sym (ap in_hand h) ∙ e;
              met = λ q m e. absurd (m (sym e ∙ ap ends h));
              no_end = refl;
              not_registered = λ q e. cc (h, e);
              newer = λ a a_p m. omega arith;
              older = λ a m. ((λ e. omega arith), omega arith);
            })
            (n, stays place new unborn listed unmade p (on k) (λ z. cc) here),
        Locks-same s.mem_lock s.context s.pc locks k (running p) (sym (ap locked h)),
      )

  -- So does the joiner of a thread that has ended.
  pub Good-wake : (k p : ℕ) → s.pc k ≡ waking p → Good (enqueue k (s.join_thread p) loop s)
  Good-wake k p h =
      let joiner : ℕ = s.join_thread p in
      let (n, over, m, here) = at_pc s place inv locks k (waking p) h in
      (
        update place joiner listed,
        Inv-enqueue s place inv k joiner (waits_for p) loop s.created here
            (record {
              not_null = m;
              saved = inv.kept joiner (ap asleep here);
              moves = (λ z. cc, λ z. cc);
              mine = λ j j_k z. cc;
              awaited = λ j q q_n z.
                  let p_q : p ≡ q = cc z in
                  (
                    ap s.over (sym p_q) ∙ over,
                    λ j_k e.
                        j_k (inv.once j k (λ e0. q_n (sym e ∙ e0)) (e ∙ sym p_q ∙ sym (ap ends h))),
                  );
              hand = λ a a_n a_p e. absurd (a_n (sym e ∙ ap in_hand h));
              met = λ q q_n e. ap s.join_thread (sym e ∙ ap ends h);
              no_end = refl;
              not_registered = λ q e. cc (h, e);
              newer = λ a a_p later. later;
              older = λ a later. ((λ e. cc (inv.fresh a later, ap place e, here)), later);
            })
            tt,
        Locks-same s.mem_lock s.context s.pc locks k loop (sym (ap locked h)),
      )
