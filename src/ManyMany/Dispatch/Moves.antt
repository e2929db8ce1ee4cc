-- ===== src/ManyMany/Dispatch/Moves.antt =====
-- The steps of a dispatcher that move no thread from one place to another.
use libthreads_c.Base.{
  ℕ, ◌≡◌, ◌≢◌, ◌<◌, ◌∙◌, refl, sym, ap, Bool, true, inl, inr, arith, has, update, update-cases,
  update-image, Bool-cases, ◌==◌, ==-refl, subst,
}
use libthreads_c.ManyMany.Dispatch.{
  Pc, loop, leaving, waking, testing, registered, Context, System, goto,
}
use libthreads_c.ManyMany.Dispatch.Places.{
  in_hand, ends, Place, unborn, listed, gone, on, waits_for, asleep, ToEnd, At, Local, Inv,
}
use libthreads_c.ManyMany.Dispatch.Keeps.{locals, Keeps-same}
use libthreads_c.ManyMany.Dispatch.Points.{
  ends-other, registered-other, OnceEach-same, OnceEach-fresh,
}

-- A thread stays where it is when what the place rests on stays.
pub At-keeps :
    (s g : System) (p : ℕ) (x : Place)
    → (s.created < p → g.created < p)
    → ((j : ℕ) → x ≡ on j → in_hand (s.pc j) ≡ p → in_hand (g.pc j) ≡ p)
    → (x ≡ listed → has p s.mmrll ≡ true → has p g.mmrll ≡ true)
    → ((q : ℕ)
        → x ≡ waits_for q
        → q ≢ 0
        → s.join_thread q ≡ p
        → ToEnd s q
        → (g.join_thread q ≡ p) × ToEnd g q)
    → (s.over p ≡ true → g.over p ≡ true)
    → At s p x
    → At g p x
At-keeps s g p unborn un hand list wait over h = un h
At-keeps s g p listed un hand list wait over h = list refl h
At-keeps s g p gone un hand list wait over h = over h
At-keeps s g p (on j) un hand list wait over h = hand j refl h
At-keeps s g p (waits_for q) un hand list wait over (n, e, t) =
    let (e', t') = wait q refl n e t in (n, e', t')

pub ToEnd-keeps :
    (s g : System) (q : ℕ)
    → g.over ≡ s.over
    → ((j : ℕ) → ends (g.pc j) ≡ ends (s.pc j))
    → ToEnd s q
    → ToEnd g q
ToEnd-keeps s g q ov en (inl h) = inl (rw ov h)
ToEnd-keeps s g q ov en (inr (k, h)) = inr (k, en k ∙ h)

pub on_other : {x : Place} {j k : ℕ} → j ≢ k → x ≡ on j → x ≢ on k
on_other n e e' = n (cc (e, e'))

module _ (s : System) (place : ℕ → Place) (inv : Inv s place) (k : ℕ) (b : Pc) where
  -- The dispatcher goes on with the same thread in hand, and writes no context but that thread's.
  pub Inv-quiet :
      (l : ℕ → ℕ) (sv : ℕ → Bool) (cx : ℕ → Context) (io : ℕ → Bool)
      → ((a : ℕ) → place a ≢ on k → sv a ≡ s.saved a)
      → in_hand b ≡ in_hand (s.pc k)
      → ends b ≡ ends (s.pc k)
      → ((q : ℕ) → s.pc k ≡ registered (s.join_thread q) q → s.over q ≡ true)
      → Local (record s { saved = sv }) place k b
      → Inv (goto k b (record s { mem_lock = l; saved = sv; context = cx; intr_off = io })) place
  Inv-quiet l sv cx io kept same still busy mine =
      let g : System =
        goto k b (record s { mem_lock = l; saved = sv; context = cx; intr_off = io }) in
      record {
        at = λ p n.
            At-keeps s g p (place p) (λ h. h) (λ j e h. update-image in_hand s.pc k b same j ∙ h)
              (λ e h. h)
              (λ q e n e' t. (e', ToEnd-keeps s g q refl (update-image ends s.pc k b still) t))
              (λ h. h) (inv.at p n);
        local = locals {g = g} k b inv mine (λ j n. record {
          hand = λ a e. e;
          saved = λ a e h. kept a (on_other n e) ∙ h;
          over = λ q h. h;
          joined = λ q h. refl;
          alone = λ q h. refl;
          waits = λ a q n e h. h;
        });
        ready = inv.ready;
        distinct = inv.distinct;
        ended = inv.ended;
        fresh = inv.fresh;
        kept = λ a h. kept a (λ e. cc (ap asleep e, h)) ∙ inv.kept a h;
        once = OnceEach-same s.pc k b still inv.once;
        pending = λ q n h o. elim (inv.pending q n h o) [
          | inl on_way ↦
              inl (registered-other s.pc k b (s.join_thread q) q (λ e. cc (busy q e, o)) on_way)
          | inr e ↦ inr e
        ];
      }

-- A thread that nobody joins is over, and its dispatcher goes back to its loop; or the dispatcher is to wake the
-- one that waits.
module _ (s : System) (place : ℕ → Place) (inv : Inv s place) (k q : ℕ)
    (h : s.pc k ≡ leaving q) where
  leaving-Local : Local s place k (leaving q)
  leaving-Local = subst (Local s place k) h (inv.local k)

  pub Inv-nobody :
      (l : ℕ → ℕ) → s.join_thread q ≡ 0 → Inv (goto k loop (record s { mem_lock = l })) place
  Inv-nobody l nobody =
      let g : System = goto k loop (record s { mem_lock = l }) in
      let hands : in_hand loop ≡ in_hand (s.pc k) = sym (ap in_hand h) in
      record {
        at = λ p n.
            At-keeps s g p (place p) (λ h. h)
              (λ j e h. update-image in_hand s.pc k loop hands j ∙ h) (λ e h. h)
              (λ r e m e' t. (
                e',
                elim t [
                  | inl o ↦ inl o
                  | inr announced ↦ inr (
                      ends-other s.pc k loop r
                        (λ e2.
                          let r_q : r ≡ q = sym e2 ∙ ap ends h in
                          n (sym e' ∙ ap s.join_thread r_q ∙ nobody))
                        announced)
                ],
              ))
              (λ h. h) (inv.at p n);
        local =
            locals {g = g} k loop inv tt (λ j n. Keeps-same s g place refl refl refl j (s.pc j));
        ready = inv.ready;
        distinct = inv.distinct;
        ended = inv.ended;
        fresh = inv.fresh;
        kept = inv.kept;
        once = OnceEach-fresh s.pc k loop (λ j m e. absurd (e refl)) inv.once;
        pending = λ r n m o. elim (inv.pending r n m o) [
          | inl on_way ↦
              inl (registered-other s.pc k loop (s.join_thread r) r (λ e. cc (e, h)) on_way)
          | inr e ↦ inr e
        ];
      }

  pub Inv-wakes :
      (l : ℕ → ℕ) → s.join_thread q ≢ 0 → Inv (goto k (waking q) (record s { mem_lock = l })) place
  Inv-wakes l somebody =
      let (n, o, w) = leaving-Local in
      Inv-quiet s place inv k (waking q) l s.saved s.context s.intr_off (λ a m. refl)
        (sym (ap in_hand h)) (sym (ap ends h)) (λ r e. cc (e, h)) (n, o, somebody, w somebody)

-- A thread whose join is not refused is the target's joiner.
pub Inv-register :
    (s : System) (place : ℕ → Place)
    → Inv s place
    → (k p q : ℕ) → s.pc k ≡ testing p q
    → s.join_thread q ≡ 0
    → ((j : ℕ) → s.pc j ≢ leaving q)
    → Inv (goto k (registered p q) (record s { join_thread = update s.join_thread q p })) place
Inv-register s place inv k p q h nobody alone =
    let b : Pc = registered p q in
    let jt : ℕ → ℕ = update s.join_thread q p in
    let g : System = goto k b (record s { join_thread = jt }) in
    let (mine, nq) = subst (Local s place k) h (inv.local k) in
    let same : in_hand b ≡ in_hand (s.pc k) = sym (ap in_hand h) in
    let still : ends b ≡ ends (s.pc k) = sym (ap ends h) in
    let keep : (r : ℕ) → r ≢ q → jt r ≡ s.join_thread r = λ r n.
      elim (update-cases s.join_thread q r p) [ inl (e, e') ↦ absurd (n e) | inr (e, e') ↦ e' ] in
    let kept : (r : ℕ) → s.join_thread r ≢ 0 → jt r ≡ s.join_thread r =
      λ r n. keep r (λ e. n (ap s.join_thread e ∙ nobody)) in
    let self : jt q ≡ p = simp ==-refl refl in
    record {
      at = λ a n.
          At-keeps s g a (place a) (λ h. h) (λ j e h. update-image in_hand s.pc k b same j ∙ h)
            (λ e h. h)
            (λ r e m e' t. (
              kept r (λ z. n (sym e' ∙ z)) ∙ e',
              ToEnd-keeps s g r refl (update-image ends s.pc k b still) t,
            ))
            (λ h. h) (inv.at a n);
      local =
          locals {g = g} k b inv (mine, nq, self)
            (λ j n. record {
              hand = λ a e. e;
              saved = λ a e h. h;
              over = λ r h. h;
              joined = kept;
              alone = λ r e. keep r (λ z. alone j (e ∙ ap leaving z));
              waits = λ a r n e h. h;
            });
      ready = inv.ready;
      distinct = inv.distinct;
      ended = inv.ended;
      fresh = inv.fresh;
      kept = inv.kept;
      once = OnceEach-same s.pc k b still inv.once;
      pending = λ r n m o. elim (Bool-cases (r == q)) [
        | inl e ↦
            let r_q : r ≡ q = ground arith in
            inl (
              k,
              simp ==-refl (
                  ap (λ (x : ℕ). registered x q) (sym self)
                  ∙ ap (λ (x : ℕ). registered (jt x) x) (sym r_q)),
            )
        | inr e ↦
            let r_q : r ≢ q = ground arith in
            let j_r = keep r r_q in
            elim (inv.pending r n (λ z. m (j_r ∙ z)) o) [
              | inl on_way ↦
                  let (j, e2) =
                    registered-other s.pc k b (s.join_thread r) r (λ e2. cc (e2, h)) on_way in
                  inl (j, e2 ∙ ap (λ (x : ℕ). registered x r) (sym j_r))
              | inr w ↦ inr (ap place j_r ∙ w)
            ]
      ];
    }
