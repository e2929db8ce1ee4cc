-- ===== src/ManyMany/Dispatch/Points.antt =====
-- What is kept of where the dispatchers are when one of them goes on.
use libthreads_c.Base.{ℕ, ◌≡◌, ◌≢◌, ◌∙◌, sym, ap, inl, inr, update, update-cases, update-image}
use libthreads_c.ManyMany.Dispatch.{Pc, registered}
use libthreads_c.ManyMany.Dispatch.Places.{in_hand, ends, OnceEach}

module _ (pc : ℕ → Pc) (k : ℕ) (b : Pc) where
  -- A thread that another dispatcher has in hand stays there.
  pub in_hand-other :
      (a : ℕ) → in_hand (pc k) ≢ a → (j : ℕ) → in_hand (pc j) ≡ a → in_hand (update pc k b j) ≡ a
  in_hand-other a n j e = elim (update-cases pc k j b) [
    | inl (j_k, e') ↦ absurd (n (ap (λ (i : ℕ). in_hand (pc i)) (sym j_k) ∙ e))
    | inr (j_k, e') ↦ ap in_hand e' ∙ e
  ]

  -- The end that another dispatcher is about to announce is still to be announced.
  pub ends-other :
      (q : ℕ)
      → ends (pc k) ≢ q
      → ((j : ℕ) × (ends (pc j) ≡ q))
      → ((j : ℕ) × (ends (update pc k b j) ≡ q))
  ends-other q n (j, e) = elim (update-cases pc k j b) [
    | inl (j_k, e') ↦ absurd (n (ap (λ (i : ℕ). ends (pc i)) (sym j_k) ∙ e))
    | inr (j_k, e') ↦ (j, ap ends e' ∙ e)
  ]

  -- A joiner that has registered, on another dispatcher, is still there.
  pub registered-other :
      (x r : ℕ)
      → pc k ≢ registered x r
      → ((j : ℕ) × (pc j ≡ registered x r))
      → ((j : ℕ) × (update pc k b j ≡ registered x r))
  registered-other x r n (j, e) = elim (update-cases pc k j b) [
    | inl (j_k, e') ↦ absurd (n (ap pc (sym j_k) ∙ e))
    | inr (j_k, e') ↦ (j, e' ∙ e)
  ]

  pub OnceEach-same : ends b ≡ ends (pc k) → OnceEach pc → OnceEach (update pc k b)
  OnceEach-same same once i j n e =
      let at = update-image ends pc k b same in once i j (λ z. n (at i ∙ z)) (sym (at i) ∙ e ∙ at j)

  -- The dispatcher goes to a point at which no end is to be announced, or to the end of a thread that no other
  -- dispatcher has.
  pub OnceEach-fresh :
      ((j : ℕ) → j ≢ k → ends b ≢ 0 → ends (pc j) ≢ ends b) → OnceEach pc → OnceEach (update pc k b)
  OnceEach-fresh only once i j n e = elim (update-cases pc k i b) [
    | inl (i_k, at_i) ↦ elim (update-cases pc k j b) [
      | inl (j_k, at_j) ↦ i_k ∙ sym j_k
      | inr (j_k, at_j) ↦
          absurd
            (only j j_k (λ z. n (ap ends at_i ∙ z)) (sym (ap ends at_j) ∙ sym e ∙ ap ends at_i))
    ]
    | inr (i_k, at_i) ↦ elim (update-cases pc k j b) [
      | inl (j_k, at_j) ↦
          absurd
            (only i i_k (λ z. n (e ∙ ap ends at_j ∙ z)) (sym (ap ends at_i) ∙ e ∙ ap ends at_j))
      | inr (j_k, at_j) ↦
          once i j (λ z. n (ap ends at_i ∙ z)) (sym (ap ends at_i) ∙ e ∙ ap ends at_j)
    ]
  ]
