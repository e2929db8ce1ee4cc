-- ===== src/ManyMany/Dispatch/Lists.antt =====
-- The steps of a dispatcher on the ready list: a thread is taken off it, or put at its end.
use libthreads_c.Base.{
  ℕ, ◌≡◌, ◌≢◌, ◌<◌, ◌∙◌, refl, sym, ap, true, false, ◌||◌, List, [], ◌∷◌, ◌++◌, inl, inr, arith,
  has, has-append, update, update-cases, update-image, Bool-cases, ◌==◌, ==-refl, subst, Distinct,
  Distinct-snoc,
}
use libthreads_c.ManyMany.Dispatch.{Pc, loop, chosen, registered, System, goto, get_next_thread}
use libthreads_c.ManyMany.Dispatch.Places.{
  in_hand, ends, Place, unborn, listed, gone, on, waits_for, asleep, Local, Inv,
}
use libthreads_c.ManyMany.Dispatch.Keeps.{locals}
use libthreads_c.ManyMany.Dispatch.Moves.{At-keeps, ToEnd-keeps}
use libthreads_c.ManyMany.Dispatch.Points.{
  in_hand-other, ends-other, registered-other, OnceEach-same, OnceEach-fresh,
}

-- A thread that is at another place than the one that moves is another thread, and stays.
pub stays :
    (place : ℕ → Place) (p : ℕ) (x z : Place)
    → place p ≡ x
    → (a : ℕ) (y : Place) → y ≢ x
    → place a ≡ y
    → update place p z a ≡ y
stays place p x z h a y n e = elim (update-cases place p a z) [
  | inl (e', e2) ↦ absurd (n (sym e ∙ ap place e' ∙ h))
  | inr (e', e2) ↦ e2 ∙ e
]

module _ (s : System) (place : ℕ → Place) (inv : Inv s place) (k p : ℕ) where
  -- The head of the ready list is taken off it.
  pub Inv-choose :
      (rest : List ℕ)
      → s.pc k ≡ loop
      → s.mmrll ≡ p ∷ rest
      → Inv (get_next_thread k p rest s) (update place p (on k))
  Inv-choose rest h m =
      let g : System = get_next_thread k p rest s in
      let place' : ℕ → Place = update place p (on k) in
      let b : Pc = chosen p in
      let member : (a : ℕ) → has a s.mmrll ≡ ((a == p) || has a rest) = λ a. ap (has a) m in
      let (n, here) = inv.ready p (member p ∙ simp ==-refl refl) in
      let (out, d) = subst Distinct m inv.distinct in
      let still : ends b ≡ ends (s.pc k) = sym (ap ends h) in
      let others : (a : ℕ) (y : Place) → y ≢ listed → place a ≡ y → place' a ≡ y =
        stays place p listed (on k) here in
      record {
        at = λ a m0. elim (update-cases place p a (on k)) [
          | inl (e, e') ↦ rw (e', e) (simp ==-refl refl)
          | inr (a_p, e') ↦ rw e' (
              At-keeps s g a (place a) (λ c. c)
                (λ j e c. in_hand-other s.pc k b a (λ e2. m0 (sym e2 ∙ ap in_hand h)) j c)
                (λ e c. ground (arith, member a, c))
                (λ q e n0 e2 t. (e2, ToEnd-keeps s g q refl (update-image ends s.pc k b still) t))
                (λ c. c) (inv.at a m0))
        ];
        local =
            locals {g = g} k b inv ((n, simp ==-refl refl), inv.kept p (ap asleep here))
              (λ j j_k. record {
                hand = λ a e. others a (on j) (λ z. cc) e;
                saved = λ a e c. c;
                over = λ q c. c;
                joined = λ q c. refl;
                alone = λ q c. refl;
                waits = λ a q n0 e c. others a (waits_for q) (λ z. cc) c;
              });
        ready = λ a c.
            let (m0, e) = inv.ready a (ground (arith, member a, c)) in
            let a_p : (a == p) ≡ false = elim (Bool-cases (a == p)) [
              | inl same ↦
                  let a_is : a ≡ p = ground arith in
                  absurd (cc (c, ap (λ (x : ℕ). has x rest) a_is, out))
              | inr other ↦ other
            ] in
            (m0, simp a_p e);
        distinct = d;
        ended = λ a c. others a gone (λ z. cc) (inv.ended a c);
        fresh = λ a c. others a unborn (λ z. cc) (inv.fresh a c);
        kept = λ a c. elim (update-cases place p a (on k)) [
          | inl (e, e') ↦ absurd (cc (ap asleep e', c))
          | inr (e, e') ↦ inv.kept a (ap asleep (sym e') ∙ c)
        ];
        once = OnceEach-same s.pc k b still inv.once;
        pending = λ q n0 c o. elim (inv.pending q n0 c o) [
          | inl on_way ↦ inl (registered-other s.pc k b (s.join_thread q) q (λ e. cc (e, h)) on_way)
          | inr w ↦ inr (others (s.join_thread q) (waits_for q) (λ z. cc) w)
        ];
      }

-- The thread `p` at the place `x`, as the dispatcher `k` may put it at the end of the ready list: it is the one in
-- its hand, the one whose join it meets, or a new one.
pub record Ready (s : System) (k p : ℕ) (x : Place) (b : Pc) (created : ℕ) : Type 0 where
  pub not_null : p ≢ 0
  pub saved : s.saved p ≡ true
  pub moves : (x ≢ listed) × (x ≢ gone)
  pub mine : (j : ℕ) → j ≢ k → x ≢ on j
  pub awaited :
      (j q : ℕ) → q ≢ 0 → x ≡ waits_for q → ((s.over q ≡ true) × (j ≢ k → ends (s.pc j) ≢ q))
  pub hand : (a : ℕ) → a ≢ 0 → a ≢ p → in_hand (s.pc k) ≡ a → in_hand b ≡ a
  pub met : (q : ℕ) → q ≢ 0 → ends (s.pc k) ≡ q → s.join_thread q ≡ p
  pub no_end : ends b ≡ 0
  pub not_registered : (q : ℕ) → s.pc k ≢ registered (s.join_thread q) q
  pub newer : (a : ℕ) → a ≢ p → s.created < a → created < a
  pub older : (a : ℕ) → created < a → (a ≢ p) × (s.created < a)

pub Inv-enqueue :
    (s : System) (place : ℕ → Place)
    → Inv s place
    → (k p : ℕ) (x : Place) (b : Pc) (created : ℕ) → place p ≡ x
    → Ready s k p x b created
    → Local s (update place p listed) k b
    → Inv
        (goto k b (record s { mmrll = s.mmrll ++ p ∷ []; created = created }))
        (update place p listed)
Inv-enqueue s place inv k p x b created here c mine =
    let g : System = goto k b (record s { mmrll = s.mmrll ++ p ∷ []; created = created }) in
    let place' : ℕ → Place = update place p listed in
    let others : (a : ℕ) (y : Place) → y ≢ x → place a ≡ y → place' a ≡ y =
      stays place p x listed here in
    let out : has p s.mmrll ≡ false = elim (Bool-cases (has p s.mmrll)) [
      | inl e ↦ absurd (c.moves.0 (sym here ∙ (inv.ready p e).1))
      | inr e ↦ e
    ] in
    record {
      at = λ a n. elim (update-cases place p a listed) [
        | inl (e, e') ↦ rw (e', e) (ground (arith, has-append p s.mmrll (p ∷ [])))
        | inr (a_p, e') ↦ rw e' (
            At-keeps s g a (place a) (c.newer a a_p)
              (λ j e h. elim (update-cases s.pc k j b) [
                | inl (e2, e3) ↦
                    ap in_hand e3 ∙ c.hand a n a_p (ap (λ (i : ℕ). in_hand (s.pc i)) (sym e2) ∙ h)
                | inr (e2, e3) ↦ ap in_hand e3 ∙ h
              ])
              (λ e h. has-append a s.mmrll (p ∷ []) ∙ rw h refl)
              (λ q e n0 e2 t. (
                e2,
                elim t [
                  | inl o ↦ inl o
                  | inr announced ↦
                      inr (ends-other s.pc k b q (λ m. a_p (sym e2 ∙ c.met q n0 m)) announced)
                ],
              ))
              (λ h. h) (inv.at a n))
      ];
      local = locals {g = g} k b inv mine (λ j j_k. record {
        hand = λ a e. others a (on j) (λ z. c.mine j j_k (sym z)) e;
        saved = λ a e h. h;
        over = λ q h. h;
        joined = λ q h. refl;
        alone = λ q h. refl;
        waits = λ a q n e w. others a (waits_for q) (λ z. (c.awaited j q n (sym z)).1 j_k e) w;
      });
      ready = λ a h. elim (update-cases place p a listed) [
        | inl (e, e') ↦ (λ z. c.not_null (sym e ∙ z), e')
        | inr (a_p, e') ↦
            let (n, e) = inv.ready a (ground (arith, has-append a s.mmrll (p ∷ []), h, a_p)) in
            (n, e' ∙ e)
      ];
      distinct = Distinct-snoc s.mmrll p inv.distinct out;
      ended = λ a h. others a gone (λ z. c.moves.1 (sym z)) (inv.ended a h);
      fresh = λ a h.
          let (a_p, old) = c.older a h in
          elim (update-cases place p a listed) [
            | inl (e, e') ↦ absurd (a_p e)
            | inr (e, e') ↦ e' ∙ inv.fresh a old
          ];
      kept = λ a h. elim (update-cases place p a listed) [
        | inl (e, e') ↦ rw e (c.saved)
        | inr (e, e') ↦ inv.kept a (ap asleep (sym e') ∙ h)
      ];
      once = OnceEach-fresh s.pc k b (λ j j_k m. absurd (m c.no_end)) inv.once;
      pending = λ q n h o. elim (inv.pending q n h o) [
        | inl on_way ↦
            inl (registered-other s.pc k b (s.join_thread q) q (c.not_registered q) on_way)
        | inr w ↦
            inr
              (others (s.join_thread q) (waits_for q) (λ z. cc ((c.awaited k q n (sym z)).0, o)) w)
      ];
    }
