-- ===== src/ManyMany/Contend/Handover.antt =====
-- The steps that change the owner, the waiting list or the ready list keep the invariant.
use libthreads_c.Base.{
  ℕ, ◌≡◌, ◌≢◌, ◌∙◌, refl, sym, ap, true, false, ◌||◌, List, [], ◌∷◌, ◌++◌, inl, inr, arith, has,
  has-append, update, update-cases, update_other, Bool-cases, ◌==◌, ==-refl, subst, Distinct,
  Distinct-snoc,
}
use libthreads_c.ManyMany.Contend.{
  Pc, outside, locking, testing, trying, try_testing, granted, refused, switching, parking, parked,
  inside, releasing, unlocking, checking, denied, waking, System, goto, make_ready, resume,
}
use libthreads_c.ManyMany.Contend.Facts.{
  holds, Out, Owner, Waits, Local, Inv, keeps, locals, Excl, Excl-move,
}
use libthreads_c.ManyMany.Contend.Moves.{plain, mine, other_parked, other_waking}

-- Who is on the waiting list and does not hold the lock is parked.
queued-parked :
    (s : System) (u : ℕ) (p : Pc)
    → Local s u p
    → u ≢ 0
    → has u s.waitll ≡ true
    → holds p ≡ false
    → (p ≡ parked) × Waits s u
queued-parked s u outside l n w out = cc ((l n).2, w)
queued-parked s u locking l n w out = cc (l.2, w)
queued-parked s u testing l n w out = cc out
queued-parked s u trying l n w out = cc (l.2, w)
queued-parked s u try_testing l n w out = cc out
queued-parked s u refused l n w out = cc out
queued-parked s u releasing l n w out = cc out
queued-parked s u granted l n w out = cc out
queued-parked s u inside l n w out = cc (l.2, w)
queued-parked s u switching l n w out = cc out
queued-parked s u parking l n w out = cc out
queued-parked s u parked (inl l) n w out = (refl, l)
queued-parked s u parked (inr l) n w out = cc (l.2, w)
queued-parked s u (unlocking true) l n w out = cc (l.2, w)
queued-parked s u (unlocking false) l n w out = cc (l.2, w)
queued-parked s u (checking b) l n w out = cc out
queued-parked s u (denied b) l n w out = cc out
queued-parked s u (waking v) l n w out = cc out

module _ (s : System) (inv : Inv s) (t : ℕ) (a : Pc) (h : s.pc t ≡ a) where
  -- A lock's holder is alone, so no other thread is about to wake one.
  module _ (held : holds a ≡ true) where
    alone : (j : ℕ) → j ≢ t → (p : Pc) → s.pc j ≡ p → holds p ≡ true → ⊥
    alone j n p e e' = n (inv.excl.alone j t (ap holds e ∙ e') (ap holds h ∙ held))

    others_out : (j : ℕ) → j ≢ t → holds (s.pc j) ≡ false
    others_out j n = elim (Bool-cases (holds (s.pc j))) [
      | inl e ↦ absurd (alone j n (s.pc j) refl e)
      | inr e ↦ e
    ]

    stays : (p : Pc) → holds p ≡ true → Excl holds s.mem_lock (update s.pc t p)
    stays p e = Excl-move s.pc t p inv.excl (e ∙ sym (ap holds h ∙ held))

    -- The mutex has no owner, and the thread becomes it.
    pub Inv-grant :
        plain a ≡ true → s.owner ≡ 0 → Out s t → Inv (goto t granted (record s { owner = t }))
    Inv-grant quiet free (n, o, w, r) =
        let g : System = goto t granted (record s { owner = t }) in
        record {
          excl = stays granted refl;
          local =
              locals s g t granted (n, refl, w, r)
                (λ j j_t. keeps s g j inv (record {
                  not_owner = λ m e e'. j_t (sym e');
                  owner = λ m e. absurd (m (sym e ∙ free));
                  waiting = λ m. refl;
                  ready = refl;
                  handed = λ v e. inl (other_waking s inv t a h granted quiet v j e);
                  wakes = λ u e rest. absurd (alone j j_t (waking u) e refl);
                }));
          distinct = inv.distinct;
          no_null = inv.no_null;
          waited = λ e. absurd (n e);
        }

    -- The mutex has an owner, and the thread is put on the waiting list.
    pub Inv-queue :
        plain a ≡ true
        → s.owner ≢ 0
        → Out s t
        → Inv (goto t switching (record s { waitll = s.waitll ++ t ∷ [] }))
    Inv-queue quiet owned (n, o, w, r) =
        let g : System = goto t switching (record s { waitll = s.waitll ++ t ∷ [] }) in
        record {
          excl = stays switching refl;
          local =
              locals s g t switching (n, o, ground (arith, has-append t s.waitll (t ∷ [])), r)
                (λ j j_t. keeps s g j inv (record {
                  not_owner = λ m e. e;
                  owner = λ m e. e;
                  waiting = λ m. ground (arith, has-append j s.waitll (t ∷ []), j_t);
                  ready = refl;
                  handed = λ v e. inl (other_waking s inv t a h switching quiet v j e);
                  wakes =
                      λ u e (at, ou, ru). (other_parked s inv t a h switching quiet u at, ou, ru);
                }));
          distinct = Distinct-snoc s.waitll t inv.distinct w;
          no_null = ground (arith, has-append 0 s.waitll (t ∷ []), n, inv.no_null);
          waited = λ e. absurd (owned e);
        }

    -- Nobody waits, and the mutex has no owner any more.
    pub Inv-free :
        plain a ≡ true → s.waitll ≡ [] → Owner s t → Inv (goto t releasing (record s { owner = 0 }))
    Inv-free quiet none (n, o, w, r) =
        let g : System = goto t releasing (record s { owner = 0 }) in
        record {
          excl = stays releasing refl;
          local =
              locals s g t releasing (n, (λ e. n (sym e)), w, r)
                (λ j j_t. keeps s g j inv (record {
                  not_owner = λ m e e'. m (sym e');
                  owner = λ m e. absurd (j_t (sym e ∙ o));
                  waiting = λ m. refl;
                  ready = refl;
                  handed = λ v e. inl (other_waking s inv t a h releasing quiet v j e);
                  wakes = λ u e rest. absurd (alone j j_t (waking u) e refl);
                }));
          distinct = inv.distinct;
          no_null = inv.no_null;
          waited = λ e. none;
        }

    -- The first thread that waits becomes the owner.
    pub Inv-hand :
        (u : ℕ) (rest : List ℕ)
        → plain a ≡ true
        → s.waitll ≡ u ∷ rest
        → Owner s t
        → Inv (goto t (waking u) (record s { owner = u; waitll = rest }))
    Inv-hand u rest quiet queue (n, o, w, r) =
        let g : System = goto t (waking u) (record s { owner = u; waitll = rest }) in
        let member : (j : ℕ) → has j s.waitll ≡ ((j == u) || has j rest) = λ j. ap (has j) queue in
        let u_n : u ≢ 0 =
          λ e. cc (inv.no_null, member 0, ap (λ (x : ℕ). (0 == x) || has 0 rest) e) in
        let u_t : u ≢ t = λ e.
          cc (
            w,
            member t,
            subst (λ (x : ℕ). ((x == u) || has x rest) ≡ true) e (simp ==-refl refl),
          ) in
        let (at, (m, ou, wu, ru)) =
          queued-parked s u (s.pc u) (inv.local u) u_n (member u ∙ simp ==-refl refl)
            (others_out u u_t) in
        let (out, d) = subst Distinct queue inv.distinct in
        record {
          excl = stays (waking u) refl;
          local =
              locals s g t (waking u)
                (
                  (n, u_t, ground (arith, member t, w), r),
                  update_other s.pc t u (waking u) u_t ∙ at,
                  refl,
                  ru,
                )
                (λ j j_t. elim (Bool-cases (j == u)) [
                  | inl e ↦
                      let j_u : j ≡ u = ground arith in
                      subst (λ (x : ℕ). Local g x (s.pc x)) (sym j_u)
                        (subst (Local g u) (sym at)
                          (inr (u_n, refl, out, inr (ru, (t, simp ==-refl refl)))))
                  | inr e ↦
                      let j_u : j ≢ u = ground arith in
                      keeps s g j inv (record {
                        not_owner = λ m0 e0 e1. j_u (sym e1);
                        owner = λ m0 e0. absurd (j_t (sym e0 ∙ o));
                        waiting = λ m0. ground (arith, member j, e);
                        ready = refl;
                        handed = λ v e0. inl (other_waking s inv t a h (waking u) quiet v j e0);
                        wakes = λ x e0 more. absurd (alone j j_t (waking x) e0 refl);
                      })
                ]);
          distinct = d;
          no_null = ground (arith, member 0, inv.no_null);
          waited = λ e. absurd (u_n e);
        }

  -- The new owner stands on the ready list.
  pub Inv-wake : (u : ℕ) → a ≡ waking u → Inv (make_ready t u s)
  Inv-wake u a_u =
      let here : s.pc t ≡ waking u = h ∙ a_u in
      let g : System = make_ready t u s in
      let (mine, at, ou, ru) = subst (Local s t) here (inv.local t) in
      let held : holds (s.pc t) ≡ true = ap holds here in
      let t_u : t ≢ u = λ e. mine.1 (ou ∙ sym e) in
      let (n, o, w, r) = mine in
      let still : (v j : ℕ) → j ≢ u → s.pc v ≡ waking j → g.pc v ≡ waking j = λ v j j_u e.
        elim (update-cases s.pc t v releasing) [
          | inl (e1, e2) ↦
              let e3 : waking u ≡ waking j = sym here ∙ ap s.pc (sym e1) ∙ e in
              let u_j : u ≡ j = cc in absurd (j_u (sym u_j))
          | inr (e1, e2) ↦ e2 ∙ e
        ] in
      record {
        excl = Excl-move s.pc t releasing inv.excl (sym held);
        local =
            locals s g t releasing (n, o, w, update_other s.ready u t true t_u ∙ r)
              (λ j j_t. elim (Bool-cases (j == u)) [
                | inl e ↦
                    let j_u : j ≡ u = ground arith in
                    subst (λ (x : ℕ). Local g x (s.pc x)) (sym j_u)
                      (subst (Local g u) (sym at)
                        (handed u ou (subst (Local s u) at (inv.local u))))
                | inr e ↦
                    let j_u : j ≢ u = ground arith in
                    keeps s g j inv (record {
                      not_owner = λ m e0. e0;
                      owner = λ m e0. e0;
                      waiting = λ m. refl;
                      ready = update_other s.ready u j true j_u;
                      handed = λ v e0. inl (still v j j_u e0);
                      wakes = λ x e0 more. absurd (j_t (inv.excl.alone j t (ap holds e0) held));
                    })
              ]);
        distinct = inv.distinct;
        no_null = inv.no_null;
        waited = inv.waited;
      }
    where
      handed : (u : ℕ) → s.owner ≡ u → Local s u parked → Local (make_ready t u s) u parked
      handed u ou (inl l) = absurd (l.1 ou)
      handed u ou (inr (n, o, w, more)) = inr (n, o, w, inl (simp ==-refl refl))

  -- A thread that was handed the mutex goes on.
  pub Inv-resume : a ≡ parked → s.ready t ≡ true → Inv (resume t s)
  Inv-resume a_p ready =
      let here : s.pc t ≡ parked = h ∙ a_p in
      let g : System = resume t s in
      record {
        excl = Excl-move s.pc t inside inv.excl (sym (ap holds here));
        local = locals s g t inside (resumed ready (subst (Local s t) here (inv.local t))) (λ j j_t.
            keeps s g j inv (record {
              not_owner = λ m e0. e0;
              owner = λ m e0. e0;
              waiting = λ m. refl;
              ready = update_other s.ready t j false j_t;
              handed = λ v e0. inl (elim (update-cases s.pc t v inside) [
                | inl (e1, e2) ↦ let e3 : parked ≡ waking j = sym here ∙ ap s.pc (sym e1) ∙ e0 in cc
                | inr (e1, e2) ↦ e2 ∙ e0
              ]);
              wakes = λ u e0 (at, ou, ru).
                  let u_t : u ≢ t = λ e. cc (ap s.ready e, ru, ready) in
                  (
                    update_other s.pc t u inside u_t ∙ at,
                    ou,
                    update_other s.ready t u false u_t ∙ ru,
                  );
            }));
        distinct = inv.distinct;
        no_null = inv.no_null;
        waited = inv.waited;
      }
    where
      resumed : s.ready t ≡ true → Local s t parked → Local (resume t s) t inside
      resumed ready (inl l) = cc (l.3, ready)
      resumed ready (inr (n, o, w, more)) = (n, o, w, simp ==-refl refl)
