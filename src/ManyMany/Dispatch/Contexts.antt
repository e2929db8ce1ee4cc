-- ===== src/ManyMany/Dispatch/Contexts.antt =====
-- The locks of the descriptors as threads are preempted, and switched to.
use libthreads_c.Base.{
  ℕ, ◌≡◌, ◌≢◌, ◌∙◌, refl, sym, ap, inl, inr, arith, update, update-cases, Bool-cases, ◌==◌,
}
use libthreads_c.Base.Holders.{Excl-drop, Excl-adopt}
use libthreads_c.ManyMany.Dispatch.{
  Pc, registered, Context, plain, awaiting, kill_waits, kill_holds, kill_enables, join_holds,
  inside, resumed, Preemptible, System,
}
use libthreads_c.ManyMany.Dispatch.Places.{
  in_hand, locked, ends, context_lock, Named, Place, Hand, Local, Locks,
}

pub locked-resumed : (p : ℕ) (c : Context) → locked (resumed p c) ≡ context_lock c
locked-resumed p plain = refl
locked-resumed p (awaiting q) = refl
locked-resumed p (kill_waits q) = refl
locked-resumed p (kill_holds q) = refl
locked-resumed p (kill_enables q) = refl
locked-resumed p (join_holds q) = refl
locked-resumed p (inside w at) = refl

pub in_hand-resumed : (p : ℕ) (c : Context) → Named c → in_hand (resumed p c) ≡ p
in_hand-resumed p plain n = refl
in_hand-resumed p (awaiting q) n = refl
in_hand-resumed p (kill_waits q) n = refl
in_hand-resumed p (kill_holds q) n = refl
in_hand-resumed p (kill_enables q) n = refl
in_hand-resumed p (join_holds q) n = refl
in_hand-resumed p (inside w at) n = absurd n

pub ends-resumed : (p : ℕ) (c : Context) → Named c → ends (resumed p c) ≡ 0
ends-resumed p plain n = refl
ends-resumed p (awaiting q) n = refl
ends-resumed p (kill_waits q) n = refl
ends-resumed p (kill_holds q) n = refl
ends-resumed p (kill_enables q) n = refl
ends-resumed p (join_holds q) n = refl
ends-resumed p (inside w at) n = absurd n

pub resumed-registered : (p a r : ℕ) (c : Context) → Named c → resumed p c ≢ registered a r
resumed-registered p a r plain n e = cc e
resumed-registered p a r (awaiting q) n e = cc e
resumed-registered p a r (kill_waits q) n e = cc e
resumed-registered p a r (kill_holds q) n e = cc e
resumed-registered p a r (kill_enables q) n e = cc e
resumed-registered p a r (join_holds q) n e = cc e
resumed-registered p a r (inside w at) n e = absurd n

pub Local-resumed :
    (s : System) (place : ℕ → Place) (k p : ℕ) (c : Context)
    → Hand s place k p
    → Named c
    → Local s place k (resumed p c)
Local-resumed s place k p plain h n = h
Local-resumed s place k p (awaiting q) h n = (h, n)
Local-resumed s place k p (kill_waits q) h n = (h, n)
Local-resumed s place k p (kill_holds q) h n = (h, n)
Local-resumed s place k p (kill_enables q) h n = (h, n)
Local-resumed s place k p (join_holds q) h n = (h, n)
Local-resumed s place k p (inside w at) h n = absurd n

pub resumed-Local :
    (s : System) (place : ℕ → Place) (k p : ℕ) (c : Context)
    → Preemptible c
    → Local s place k (resumed p c)
    → Hand s place k p × Named c
resumed-Local s place k p plain m h = (h, tt)
resumed-Local s place k p (awaiting q) m h = h
resumed-Local s place k p (kill_waits q) m h = h
resumed-Local s place k p (kill_holds q) m h = h
resumed-Local s place k p (kill_enables q) m h = h
resumed-Local s place k p (join_holds q) m h = h
resumed-Local s place k p (inside w at) m h = absurd m

module _ (mem : ℕ → ℕ) (context : ℕ → Context) (pc : ℕ → Pc) (locks : Locks mem context pc)
    (p : ℕ) where
  named : (c : Context) → Named c → (a : ℕ) → Named (update context p c a)
  named c n a = elim (update-cases context p a c) [
    | inl (e, e') ↦ rw e' n
    | inr (e, e') ↦ rw e' (locks.named a)
  ]

  -- The other contexts hold what they held.
  only_one :
      (c : Context) (a q : ℕ)
      → context_lock c ≢ q
      → ((r : ℕ) → context_lock (context r) ≡ q → r ≡ a)
      → (r : ℕ) → context_lock (update context p c r) ≡ q
      → r ≡ a
  only_one c a q c_q only r e = elim (update-cases context p r c) [
    | inl (e1, e') ↦ absurd (c_q (sym (ap context_lock e') ∙ e))
    | inr (e1, e') ↦ only r (sym (ap context_lock e') ∙ e)
  ]

  -- A thread that waits for the end of another one holds nothing by its context.
  pub Locks-awaiting : (t : ℕ) → t ≢ 0 → Locks mem (update context p (awaiting t)) pc
  Locks-awaiting t m = record {
    held = locks.held;
    named = named (awaiting t) m;
    apart = λ a q n e. elim (update-cases context p a (awaiting t)) [
      | inl (a_p, e') ↦ absurd (n (sym e ∙ ap context_lock e'))
      | inr (a_p, e') ↦
          let (taken, out, only) = locks.apart a q n (sym (ap context_lock e') ∙ e) in
          (taken, out, only_one (awaiting t) a q (λ z. n (sym z)) only)
    ];
  }

  module _ (k : ℕ) where
    out_after :
        (b : Pc) (q : ℕ)
        → locked b ≢ q
        → ((j : ℕ) → j ≢ k → locked (pc j) ≢ q)
        → (j : ℕ) → locked (update pc k b j) ≢ q
    out_after b q b_q out j e = elim (update-cases pc k j b) [
      | inl (j_k, e') ↦ b_q (sym (ap locked e') ∙ e)
      | inr (j_k, e') ↦ out j j_k (sym (ap locked e') ∙ e)
    ]

    -- The dispatcher switches to the thread, which holds again what it held when it was preempted.
    pub Locks-resume :
        locked (pc k) ≡ 0 → Locks mem (update context p plain) (update pc k (resumed p (context p)))
    Locks-resume none =
        let b : Pc = resumed p (context p) in
        let same : locked b ≡ context_lock (context p) = locked-resumed p (context p) in
        record {
          held = λ r n. elim (Bool-cases (locked b == r)) [
            | inl mine ↦
                let e : context_lock (context p) ≡ r = sym same ∙ ground (arith, mine) in
                let (taken, out, only) = locks.apart p r n e in
                Excl-adopt pc k b (locks.held r n) taken (λ a. let o = out a in ground (arith, o))
            | inr other ↦ Excl-drop pc k b (locks.held r n) other
          ];
          named = named plain tt;
          apart = λ a q n e. elim (update-cases context p a plain) [
            | inl (a_p, e') ↦ absurd (n (sym e ∙ ap context_lock e'))
            | inr (a_p, e') ↦
                let (taken, out, only) = locks.apart a q n (sym (ap context_lock e') ∙ e) in
                (
                  taken,
                  out_after b q (λ z. a_p (sym (only p (sym same ∙ z)))) (λ j m. out j),
                  only_one plain a q (λ z. n (sym z)) only,
                )
          ];
        }

    -- The thread is preempted: what it holds, it holds by its context.
    pub Locks-preempt :
        (c : Context) (b : Pc)
        → pc k ≡ resumed p c
        → Named c
        → locked b ≡ 0
        → Locks mem (update context p c) (update pc k b)
    Locks-preempt c b h m none =
        let mine : locked (pc k) ≡ context_lock c = ap locked h ∙ locked-resumed p c in
        record {
          held = λ r n. Excl-drop pc k b (locks.held r n) (ground (arith, none, n));
          named = named c m;
          apart = λ a q n e. elim (update-cases context p a c) [
            | inl (a_p, e') ↦
                let c_q : locked (pc k) ≡ q = mine ∙ sym (ap context_lock e') ∙ e in
                let x = locks.held q n in
                (
                  elim x.word [
                    | inl w ↦ w
                    | inr w ↦ let f = x.free w k in absurd (ground (arith, f, c_q))
                  ],
                  out_after b q (λ z. n (sym z ∙ none))
                      (λ j j_k z. j_k (x.alone j k (ground (arith, z)) (ground (arith, c_q)))),
                  λ r e2. elim (update-cases context p r c) [
                    | inl (r_p, e3) ↦ r_p ∙ sym a_p
                    | inr (r_p, e3) ↦
                        absurd ((locks.apart r q n (sym (ap context_lock e3) ∙ e2)).1 k c_q)
                  ],
                )
            | inr (a_p, e') ↦
                let (taken, out, only) = locks.apart a q n (sym (ap context_lock e') ∙ e) in
                (
                  taken,
                  out_after b q (λ z. n (sym z ∙ none)) (λ j j_k. out j),
                  only_one c a q (λ z. out k (mine ∙ z)) only,
                )
          ];
        }
