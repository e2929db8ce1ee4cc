-- ===== src/ManyMany/Dispatch/Locks.antt =====
-- The locks of the descriptors through a step of one dispatcher.
use libthreads_c.Base.{
  ℕ, ◌≡◌, ◌≢◌, ◌∙◌, refl, sym, ap, ◌⊎◌, inl, inr, arith, update, update-cases, update_other, ◌==◌,
  subst,
}
use libthreads_c.Mods.Lock.{lock_release}
use libthreads_c.ManyMany.Dispatch.{Pc, Context}
use libthreads_c.ManyMany.Dispatch.Places.{
  locked, Apart, Locks, Excl, Excl-move, Excl-acquire, Excl-release,
}

module _ (mem : ℕ → ℕ) (context : ℕ → Context) (pc : ℕ → Pc) (locks : Locks mem context pc) (k : ℕ)
    (b : Pc) where
  -- What a preempted thread holds stays its own while the dispatcher touches no lock of it.
  apart :
      (mem' : ℕ → ℕ)
      → ((q : ℕ) → q ≢ 0 → mem q ≡ 0 → locked (pc k) ≢ q → (mem' q ≡ mem q) × (locked b ≢ q))
      → Apart mem' context (update pc k b)
  apart mem' safe p q n e =
      let (taken, out, only) = locks.apart p q n e in
      let (same, b_q) = safe q n taken (out k) in
      (
        same ∙ taken,
        λ j. elim (update-cases pc k j b) [
          | inl (j_k, e') ↦ λ z. b_q (sym (ap locked e') ∙ z)
          | inr (j_k, e') ↦ λ z. out j (sym (ap locked e') ∙ z)
        ],
        only,
      )

  pub Locks-same : locked b ≡ locked (pc k) → Locks mem context (update pc k b)
  Locks-same e = record {
    held = λ r n. Excl-move pc k b (locks.held r n) (ap (λ (q : ℕ). q == r) e);
    named = locks.named;
    apart = apart mem (λ q n t m. (refl, λ z. m (sym e ∙ z)));
  }

  -- A round that finds the lock taken writes the word that it read.
  pub Locks-kept :
      (q : ℕ) → locked b ≡ locked (pc k) → Locks (update mem q (mem q)) context (update pc k b)
  Locks-kept q e = record {
    held = λ r n. elim (update-cases mem q r (mem q)) [
      | inl (e1, e2) ↦
          subst (λ (l : ℕ). Excl (λ p. locked p == r) l (update pc k b)) (ap mem e1 ∙ sym e2)
            ((Locks-same e).held r n)
      | inr (r_q, e2) ↦ rw e2 ((Locks-same e).held r n)
    ];
    named = locks.named;
    apart = apart (update mem q (mem q)) (λ r n t m. (
      elim (update-cases mem q r (mem q)) [
        | inl (e1, e2) ↦ e2 ∙ ap mem (sym e1)
        | inr (r_q, e2) ↦ e2
      ],
      λ z. m (sym e ∙ z),
    ));
  }

  -- The locks of other descriptors.
  elsewhere :
      (q : ℕ)
      → ((locked b ≡ q) × (locked (pc k) ≡ 0)) ⊎ ((locked b ≡ 0) × (locked (pc k) ≡ q))
      → (r : ℕ) → r ≢ 0
      → r ≢ q
      → Excl (λ p. locked p == r) (mem r) (update pc k b)
  elsewhere q e r n r_q =
      Excl-move pc k b (locks.held r n)
        (elim e [ inl (e1, e2) ↦ ground (arith, e1, e2) | inr (e1, e2) ↦ ground (arith, e1, e2) ])

  pub Locks-acquire :
      (q : ℕ)
      → mem q ≡ 1
      → locked b ≡ q
      → locked (pc k) ≡ 0
      → Locks (update mem q 0) context (update pc k b)
  Locks-acquire q free e1 e2 = record {
    held = λ r n. elim (update-cases mem q r 0) [
      | inl (e, e') ↦ rw e' (
          Excl-acquire pc k b
            (subst (λ (l : ℕ). Excl (λ p. locked p == r) l pc) (ap mem e ∙ free) (locks.held r n)))
      | inr (r_q, e') ↦ rw e' (elsewhere q (inl (e1, e2)) r n r_q)
    ];
    named = locks.named;
    apart = apart (update mem q 0) (λ r n t m.
        let r_q : r ≢ q = λ e. let one = sym t ∙ ap mem e ∙ free in absurd (omega arith) in
        (update_other mem q r 0 r_q, λ z. r_q (sym z ∙ e1)));
  }

  pub Locks-release :
      (q : ℕ)
      → q ≢ 0
      → locked b ≡ 0
      → locked (pc k) ≡ q
      → Locks (update mem q (lock_release (mem q))) context (update pc k b)
  unfolding lock_release
  Locks-release q m e1 e2 =
      let (zero_word, after) =
        Excl-release pc k b (locks.held q m) (ground (arith, e2)) (ground (arith, e1, m)) in
      record {
        held = λ r n. elim (update-cases mem q r (lock_release (mem q))) [
          | inl (e, e') ↦ rw (e', e) (simp zero_word after)
          | inr (r_q, e') ↦ rw e' (elsewhere q (inr (e1, e2)) r n r_q)
        ];
        named = locks.named;
        apart = apart (update mem q (lock_release (mem q))) (λ r n t other. (
          update_other mem q r (lock_release (mem q)) (λ e. other (e2 ∙ sym e)),
          λ z. n (sym z ∙ e1),
        ));
      }

  -- Two dispatchers do not hold one lock.
  pub Locks-alone : (q j : ℕ) → q ≢ 0 → locked (pc j) ≡ q → locked (pc k) ≡ q → j ≡ k
  Locks-alone q j n e1 e2 = (locks.held q n).alone j k (ground (arith, e1)) (ground (arith, e2))
