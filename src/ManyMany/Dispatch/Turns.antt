-- ===== src/ManyMany/Dispatch/Turns.antt =====
-- The steps at which a thread leaves its dispatcher's hand for no list: it waits for another one's end, or ends.
use libthreads_c.Base.{
  ℕ, ◌≡◌, ◌≢◌, ◌∙◌, refl, sym, ap, true, false, inl, inr, update, update-cases, update-image,
  update_other, Bool-cases, ==-refl, subst,
}
use libthreads_c.ManyMany.Dispatch.{
  Pc, registered, parking, settling, leaving, waking, awaiting, System, td_ret_cxt, td_set_over,
}
use libthreads_c.ManyMany.Dispatch.Places.{
  in_hand, ends, Place, unborn, listed, gone, on, waits_for, asleep, Local, Inv,
}
use libthreads_c.ManyMany.Dispatch.Keeps.{locals}
use libthreads_c.ManyMany.Dispatch.Moves.{At-keeps, ToEnd-keeps}
use libthreads_c.ManyMany.Dispatch.Lists.{stays}
use libthreads_c.ManyMany.Dispatch.Points.{
  in_hand-other, ends-other, registered-other, OnceEach-same, OnceEach-fresh,
}

Local-ends :
    (s : System) (place : ℕ → Place) (j : ℕ) (p : Pc)
    → Local s place j p
    → ends p ≢ 0
    → s.over (ends p) ≡ true
Local-ends s place j (leaving q) (n, o, w) m = o
Local-ends s place j (waking q) (n, o, m', w) m = o
Local-ends s place j _ l m = absurd (m refl)

module _ (s : System) (place : ℕ → Place) (inv : Inv s place) (k p : ℕ) where
  -- A joiner whose target is not over gives the control back.
  pub Inv-park :
      (q : ℕ)
      → s.pc k ≡ registered p q
      → s.over q ≡ false
      → Inv (td_ret_cxt k p (awaiting q) (parking q) s) (update place p (waits_for q))
  Inv-park q h o =
      let b : Pc = parking q in
      let g : System = td_ret_cxt k p (awaiting q) b s in
      let place' : ℕ → Place = update place p (waits_for q) in
      let ((n, here), nq, mine) = subst (Local s place k) h (inv.local k) in
      let still : ends b ≡ ends (s.pc k) = sym (ap ends h) in
      let others : (a : ℕ) (y : Place) → y ≢ on k → place a ≡ y → place' a ≡ y =
        stays place p (on k) (waits_for q) here in
      let saved_keeps : (a : ℕ) → s.saved a ≡ true → g.saved a ≡ true =
        λ a e. elim (update-cases s.saved p a true) [ inl (e1, e2) ↦ e2 | inr (e1, e2) ↦ e2 ∙ e ] in
      record {
        at = λ a m0. elim (update-cases place p a (waits_for q)) [
          | inl (e, e') ↦ rw (e', e) (nq, mine, inl o)
          | inr (a_p, e') ↦ rw e' (
              At-keeps s g a (place a) (λ c. c)
                (λ j e c. in_hand-other s.pc k b a (λ e2. a_p (sym e2 ∙ ap in_hand h)) j c)
                (λ e c. c)
                (λ r e n0 e2 t. (e2, ToEnd-keeps s g r refl (update-image ends s.pc k b still) t))
                (λ c. c) (inv.at a m0))
        ];
        local = locals {g = g} k b inv nq (λ j j_k. record {
          hand = λ a e. others a (on j) (λ z. j_k (cc z)) e;
          saved = λ a e c. saved_keeps a c;
          over = λ r c. c;
          joined = λ r c. refl;
          alone = λ r c. refl;
          waits = λ a r n0 e c. others a (waits_for r) (λ z. cc) c;
        });
        ready = λ a c. let (m0, e) = inv.ready a c in (m0, others a listed (λ z. cc) e);
        distinct = inv.distinct;
        ended = λ a c. others a gone (λ z. cc) (inv.ended a c);
        fresh = λ a c. others a unborn (λ z. cc) (inv.fresh a c);
        kept = λ a c. elim (update-cases s.saved p a true) [
          | inl (e, e') ↦ e'
          | inr (e, e') ↦
              e' ∙ inv.kept a (ap asleep (sym (update_other place p a (waits_for q) e)) ∙ c)
        ];
        once = OnceEach-same s.pc k b still inv.once;
        pending = λ r n0 c o'. elim (inv.pending r n0 c o') [
          | inl (j, e) ↦ elim (update-cases s.pc k j b) [
            | inl (same_k, e') ↦
                let met : registered p q ≡ registered (s.join_thread r) r =
                  sym h ∙ ap s.pc (sym same_k) ∙ e in
                let q_r : q ≡ r = cc in
                let p_j : p ≡ s.join_thread r = cc in inr (rw (← q_r, mine) (simp ==-refl refl))
            | inr (other, e') ↦ inl (j, e' ∙ e)
          ]
          | inr w ↦ inr (others (s.join_thread r) (waits_for r) (λ z. cc) w)
        ];
      }

  -- A thread that has exited is over.
  pub Inv-settle :
      s.pc k ≡ settling p
      → ((j r : ℕ) → s.pc j ≢ registered r p)
      → Inv (td_set_over k p s) (update place p gone)
  Inv-settle h alone =
      let b : Pc = leaving p in
      let g : System = td_set_over k p s in
      let place' : ℕ → Place = update place p gone in
      let (n, here) = subst (Local s place k) h (inv.local k) in
      let others : (a : ℕ) (y : Place) → y ≢ on k → place a ≡ y → place' a ≡ y =
        stays place p (on k) gone here in
      let not_over : s.over p ≡ false = elim (Bool-cases (s.over p)) [
        | inl e ↦ absurd (cc (here, inv.ended p e))
        | inr e ↦ e
      ] in
      let only : (j : ℕ) → j ≢ k → ends (s.pc j) ≢ p = λ j j_k e. cc (
        subst (λ (r : ℕ). s.over r ≡ true) e
            (Local-ends s place j (s.pc j) (inv.local j) (λ z. n (sym e ∙ z))),
        not_over,
      ) in
      let over_p : g.over p ≡ true = simp ==-refl refl in
      let over_keeps : (r : ℕ) → s.over r ≡ true → g.over r ≡ true =
        λ r e. elim (update-cases s.over p r true) [ inl (e1, e2) ↦ e2 | inr (e1, e2) ↦ e2 ∙ e ] in
      record {
        at = λ a m0. elim (update-cases place p a gone) [
          | inl (e, e') ↦ rw (e', e) (simp ==-refl refl)
          | inr (a_p, e') ↦ rw e' (
              At-keeps s g a (place a) (λ c. c)
                (λ j e c. in_hand-other s.pc k b a (λ e2. a_p (sym e2 ∙ ap in_hand h)) j c)
                (λ e c. c)
                (λ r e n0 e2 t. (
                  e2,
                  elim t [
                    | inl o ↦ elim (update-cases s.over p r true) [
                      | inl (r_p, e3) ↦ inr (k, simp ==-refl (sym r_p))
                      | inr (r_p, e3) ↦ inl (e3 ∙ o)
                    ]
                    | inr announced ↦
                        inr (ends-other s.pc k b r (λ m. n0 (sym m ∙ ap ends h)) announced)
                  ],
                ))
                (over_keeps a) (inv.at a m0))
        ];
        local =
            locals {g = g} k b inv
              (
                n,
                simp ==-refl refl,
                λ m. elim (inv.pending p n m not_over) [
                  | inl (j, e) ↦ absurd (alone j (s.join_thread p) e)
                  | inr w ↦ others (s.join_thread p) (waits_for p) (λ z. cc) w
                ],
              )
              (λ j j_k. record {
                hand = λ a e. others a (on j) (λ z. j_k (cc z)) e;
                saved = λ a e c. c;
                over = over_keeps;
                joined = λ r c. refl;
                alone = λ r c. refl;
                waits = λ a r n0 e c. others a (waits_for r) (λ z. cc) c;
              });
        ready = λ a c. let (m0, e) = inv.ready a c in (m0, others a listed (λ z. cc) e);
        distinct = inv.distinct;
        ended = λ a c. elim (update-cases place p a gone) [
          | inl (e, e') ↦ e'
          | inr (e, e') ↦ e' ∙ inv.ended a (sym (update_other s.over p a true e) ∙ c)
        ];
        fresh = λ a c. others a unborn (λ z. cc) (inv.fresh a c);
        kept = λ a c. elim (update-cases place p a gone) [
          | inl (e, e') ↦ absurd (cc (ap asleep e', c))
          | inr (e, e') ↦ inv.kept a (ap asleep (sym e') ∙ c)
        ];
        once = OnceEach-fresh s.pc k b (λ j j_k c. only j j_k) inv.once;
        pending = λ r n0 c o.
            let r_p : r ≢ p = λ z. cc (o, ap g.over z, over_p) in
            elim (inv.pending r n0 c (sym (update_other s.over p r true r_p) ∙ o)) [
              | inl on_way ↦
                  inl (registered-other s.pc k b (s.join_thread r) r (λ e. cc (e, h)) on_way)
              | inr w ↦ inr (others (s.join_thread r) (waits_for r) (λ z. cc) w)
            ];
      }
