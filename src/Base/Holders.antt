-- ===== src/Base/Holders.antt =====
-- A lock word and the threads that hold the lock, told by what each does next: of use wherever threads
-- interleave on one lock of the libraries, whose word is 1 while it is free.
use libthreads_c.Base.{
  ℕ, ◌≡◌, ◌∙◌, refl, sym, ap, Bool, true, false, ◌⊎◌, inl, inr, Bool-cases, update, update-cases,
  update-image, arith,
}

module _ {Pc : Type 0} (holds : Pc → Bool) where
  pub record Excl (lock : ℕ) (pc : ℕ → Pc) : Type 0 where
    pub word : (lock ≡ 0) ⊎ (lock ≡ 1)
    pub free : lock ≡ 1 → (t : ℕ) → holds (pc t) ≡ false
    pub alone : (t u : ℕ) → holds (pc t) ≡ true → holds (pc u) ≡ true → t ≡ u

module _ {Pc : Type 0} {holds : Pc → Bool} (pc : ℕ → Pc) (t : ℕ) (p : Pc) where
  -- A move that neither takes nor releases the lock.
  pub Excl-move :
      {lock : ℕ} → Excl holds lock pc → holds p ≡ holds (pc t) → Excl holds lock (update pc t p)
  Excl-move excl eq =
      let keep : (a : ℕ) → holds (update pc t p a) ≡ holds (pc a) = update-image holds pc t p eq in
      record {
        word = excl.word;
        free = λ e a. keep a ∙ excl.free e a;
        alone = λ a b h h'. excl.alone a b (sym (keep a) ∙ h) (sym (keep b) ∙ h');
      }

  -- A move to where the lock is not held, without a release.
  pub Excl-drop :
      {lock : ℕ} → Excl holds lock pc → holds p ≡ false → Excl holds lock (update pc t p)
  Excl-drop excl quiet =
      let was : (a : ℕ) → holds (update pc t p a) ≡ true → holds (pc a) ≡ true = λ a h.
        elim (update-cases pc t a p) [
          | inl (e, e') ↦ absurd (cc (h, ap holds e', quiet))
          | inr (e, e') ↦ ap holds (sym e') ∙ h
        ] in
      record {
        word = excl.word;
        free = λ e a. elim (update-cases pc t a p) [
          | inl (e1, e') ↦ ap holds e' ∙ quiet
          | inr (e1, e') ↦ ap holds e' ∙ excl.free e a
        ];
        alone = λ a b h h'. excl.alone a b (was a h) (was b h');
      }

  -- A move to where the lock, which is taken, is held, when nobody held it.
  pub Excl-adopt :
      {lock : ℕ}
      → Excl holds lock pc
      → lock ≡ 0
      → ((a : ℕ) → holds (pc a) ≡ false)
      → Excl holds lock (update pc t p)
  Excl-adopt excl taken nobody =
      let only : (a : ℕ) → holds (update pc t p a) ≡ true → a ≡ t = λ a h.
        elim (update-cases pc t a p) [
          | inl (e, e') ↦ e
          | inr (e, e') ↦ absurd (cc (h, e', nobody a))
        ] in
      record {
        word = excl.word;
        free = λ e a. absurd (omega arith);
        alone = λ a b h h'. only a h ∙ sym (only b h');
      }

  pub Excl-acquire : Excl holds 1 pc → Excl holds 0 (update pc t p)
  Excl-acquire excl =
      let only : (a : ℕ) → holds (update pc t p a) ≡ true → a ≡ t = λ a h.
        elim (update-cases pc t a p) [
          | inl (e, e') ↦ e
          | inr (e, e') ↦ absurd (cc (h, e', excl.free refl a))
        ] in
      record {
        word = inl refl;
        free = λ e a. absurd (omega arith);
        alone = λ a b h h'. only a h ∙ sym (only b h');
      }

  pub Excl-release :
      {lock : ℕ}
      → Excl holds lock pc
      → holds (pc t) ≡ true
      → holds p ≡ false
      → (lock ≡ 0) × Excl holds 1 (update pc t p)
  Excl-release excl held quiet =
      let none : (a : ℕ) → holds (update pc t p a) ≡ false = λ a. elim (update-cases pc t a p) [
        | inl (e, e') ↦ ap holds e' ∙ quiet
        | inr (e, e') ↦ elim (Bool-cases (holds (pc a))) [
          | inl h ↦ absurd (e (excl.alone a t h held))
          | inr h ↦ ap holds e' ∙ h
        ]
      ] in
      (
        elim excl.word [ inl e ↦ e | inr e ↦ absurd (cc (held, excl.free e t)) ],
        record {
          word = inr refl;
          free = λ e a. none a;
          alone = λ a b h h'. absurd (cc (h, none a));
        },
      )
