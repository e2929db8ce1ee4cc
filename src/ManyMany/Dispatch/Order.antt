-- ===== src/ManyMany/Dispatch/Order.antt =====
-- What holds of the ready list and of the threads in every run of the dispatchers.
use libthreads_c.Base.{
  ℕ, ◌≡◌, ◌≢◌, ◌≤◌, ◌∙◌, refl, sym, ap, true, false, ◌⊎◌, inl, inr, arith, has, Bool-cases, ◌==◌,
  if◌then◌else◌, Distinct,
}
use libthreads_c.ManyMany.Dispatch.{
  Pc, loop, chosen, sending, prepared, running, yielded, exiting, settling, leaving, waking,
  parking, joining, testing, registered, refused, returning, killing, signalling, enabling,
  resuming, System, started, Reachable, start, next,
}
use libthreads_c.ManyMany.Dispatch.Places.{
  in_hand, Place, unborn, listed, gone, on, waits_for, asleep, ToEnd, At, Local, Inv,
}
use libthreads_c.ManyMany.Dispatch.Goto.{Good, at_pc}
use libthreads_c.ManyMany.Dispatch.Steps.{Good-step}

abbrev first_place : ℕ → Place
first_place p = if p == 1 then listed else unborn

Inv-started : Inv started first_place
Inv-started = record {
  at = λ p n. elim (Bool-cases (p == 1)) [
    | inl e ↦ simp e refl
    | inr e ↦ simp e (ground (arith, e, n))
  ];
  local = λ k. tt;
  ready = λ p h. (ground (arith, h), ground (arith, h));
  distinct = (refl, tt);
  ended = λ p h. cc h;
  fresh = λ p h. let e : (p == 1) ≡ false = ground (arith, h) in simp e refl;
  kept = λ p h. refl;
  once = λ j k n e. absurd (n refl);
  pending = λ q n m o. absurd (m refl);
}

pub Reachable-Good : (s : System) → Reachable false s → Good s
Reachable-Good _ start = (
  first_place,
  Inv-started,
  record {
    held = λ q n. record {
      word = inr refl;
      free = λ e k. ground (arith, n);
      alone = λ j k h h'. ground (arith, n, h);
    };
    named = λ p. tt;
    apart = λ p q n e. absurd (n (sym e));
  },
)
Reachable-Good _ (next s g r step) =
    let (place, inv, locks) = Reachable-Good s r in Good-step s place inv locks g step

Local-held :
    (s : System) (place : ℕ → Place) (k : ℕ) (p : Pc)
    → Local s place k p
    → in_hand p ≢ 0
    → place (in_hand p) ≡ on k
Local-held s place k loop l n = absurd (n refl)
Local-held s place k (leaving q) l n = absurd (n refl)
Local-held s place k (waking q) l n = absurd (n refl)
Local-held s place k (parking q) l n = absurd (n refl)
Local-held s place k (chosen p) l n = l.0.1
Local-held s place k (sending p) l n = l.0.1
Local-held s place k (prepared p) l n = l.0.1
Local-held s place k (yielded p) l n = l.0.1
Local-held s place k (running p) l n = l.1
Local-held s place k (exiting p) l n = l.1
Local-held s place k (settling p) l n = l.1
Local-held s place k (joining p q) l n = l.0.1
Local-held s place k (testing p q) l n = l.0.1
Local-held s place k (killing p q) l n = l.0.1
Local-held s place k (signalling p q) l n = l.0.1
Local-held s place k (enabling p q) l n = l.0.1
Local-held s place k (resuming p q) l n = l.0.1
Local-held s place k (refused p q) l n = l.0.1
Local-held s place k (returning p q) l n = l.0.1
Local-held s place k (registered p q) l n = l.0.1

abbrev pub Somewhere : System → ℕ → Type 0
Somewhere s p =
    (has p s.mmrll ≡ true)
    ⊎ (((k : ℕ) × (in_hand (s.pc k) ≡ p))
        ⊎ ((s.over p ≡ true)
            ⊎ ((s.saved p ≡ true) × ((q : ℕ) × (q ≢ 0) × (s.join_thread q ≡ p) × ToEnd s q))))

At-Somewhere :
    (s : System) (p : ℕ) (x : Place)
    → (asleep x ≡ true → s.saved p ≡ true)
    → p ≤ s.created
    → At s p x
    → Somewhere s p
At-Somewhere s p unborn saved made at = absurd (omega arith)
At-Somewhere s p listed saved made at = inl at
At-Somewhere s p (on k) saved made at = inr (inl (k, at))
At-Somewhere s p gone saved made at = inr (inr (inl at))
At-Somewhere s p (waits_for q) saved made (n, e, t) = inr (inr (inr (saved refl, (q, n, e, t))))

module _ (s : System) (r : Reachable false s) where
  -- In runs in which no thread is preempted inside thread_join after it has turned its interrupts off
  -- there, a thread is never in the hands of two dispatchers.
  pub one_dispatcher :
      (j k : ℕ) → in_hand (s.pc j) ≢ 0 → in_hand (s.pc j) ≡ in_hand (s.pc k) → j ≡ k
  one_dispatcher j k n e =
      let (place, inv, locks) = Reachable-Good s r in
      let at_j = Local-held s place j (s.pc j) (inv.local j) n in
      let at_k = Local-held s place k (s.pc k) (inv.local k) (λ z. n (e ∙ z)) in
      cc (at_j, at_k, ap place e)

  -- In runs in which no thread is preempted inside thread_join after it has turned its interrupts off
  -- there, the ready list holds no thread twice. A thread on it has its context saved and is not over,
  -- and no dispatcher has it in hand.
  pub ready_waits :
      Distinct s.mmrll
      × ((p : ℕ)
          → has p s.mmrll ≡ true
          → (s.saved p ≡ true) × (s.over p ≡ false) × ((k : ℕ) → in_hand (s.pc k) ≢ p))
  ready_waits =
      let (place, inv, locks) = Reachable-Good s r in
      (
        inv.distinct,
        λ p h.
            let (n, here) = inv.ready p h in
            (
              inv.kept p (ap asleep here),
              elim (Bool-cases (s.over p)) [ inl e ↦ cc (here, inv.ended p e) | inr e ↦ e ],
              λ k e.
                  let held = Local-held s place k (s.pc k) (inv.local k) (λ z. n (sym e ∙ z)) in
                  cc (held, here, ap place e),
            ),
      )

  -- In runs in which no thread is preempted inside thread_join after it has turned its interrupts off
  -- there, a dispatcher that is about to switch to a thread finds the thread's context saved. The thread
  -- is not on the ready list, and no other dispatcher has it in hand: none runs it.
  pub switches_alone :
      (k p : ℕ)
      → s.pc k ≡ prepared p
      → (s.saved p ≡ true) × (has p s.mmrll ≡ false) × ((j : ℕ) → in_hand (s.pc j) ≡ p → j ≡ k)
  switches_alone k p h =
      let (place, inv, locks) = Reachable-Good s r in
      let ((n, here), saved) = at_pc s place inv locks k (prepared p) h in
      (
        saved,
        elim (Bool-cases (has p s.mmrll)) [ inl e ↦ cc (here, (inv.ready p e).1) | inr e ↦ e ],
        λ j e. one_dispatcher j k (λ z. n (sym e ∙ z)) (e ∙ sym (ap in_hand h)),
      )

  -- In runs in which no thread is preempted inside thread_join after it has turned its interrupts off
  -- there, no thread is lost: one that was created is on the ready list, in the hand of a dispatcher,
  -- over, or, with its context saved, the registered joiner of a thread whose end is still to come or
  -- being announced.
  pub nobody_lost : (p : ℕ) → p ≢ 0 → p ≤ s.created → Somewhere s p
  nobody_lost p n made =
      let (place, inv, locks) = Reachable-Good s r in
      At-Somewhere s p (place p) (inv.kept p) made (inv.at p n)
