-- ===== src/ManyMany/Contend/Moves.antt =====
-- The steps of a thread on the mutex keep the invariant.
use libthreads_c.Base.{
  ℕ, ◌≡◌, ◌∙◌, refl, sym, ap, Bool, true, false, inl, inr, arith, update, update-cases, ◌==◌, subst,
}
use libthreads_c.Mods.Lock.{lock_release}
use libthreads_c.ManyMany.Contend.{Pc, parked, waking, System, goto, mut_lock, mut_unlock}
use libthreads_c.ManyMany.Contend.Facts.{
  holds, Local, Inv, keeps, locals, Excl, Excl-move, Excl-acquire, Excl-release,
}

-- The point is one that no other thread looks at.
abbrev pub plain : Pc → Bool
plain parked = false
plain (waking u) = false
plain _ = true

module _ (s : System) (inv : Inv s) (t : ℕ) (a : Pc) (h : s.pc t ≡ a) where
  pub mine : Local s t a
  mine = subst (Local s t) h (inv.local t)

  -- Who reads the points of other threads finds them as they were, when `t` goes from `a` to `p`.
  module _ (p : Pc) (quiet : plain a ≡ true) where
    pub other_parked : (u : ℕ) → s.pc u ≡ parked → update s.pc t p u ≡ parked
    other_parked u e = elim (update-cases s.pc t u p) [
      | inl (e1, e2) ↦ absurd (cc (quiet, ap plain (sym h ∙ ap s.pc (sym e1) ∙ e)))
      | inr (e1, e2) ↦ e2 ∙ e
    ]

    pub other_waking : (v u : ℕ) → s.pc v ≡ waking u → update s.pc t p v ≡ waking u
    other_waking v u e = elim (update-cases s.pc t v p) [
      | inl (e1, e2) ↦ absurd (cc (quiet, ap plain (sym h ∙ ap s.pc (sym e1) ∙ e)))
      | inr (e1, e2) ↦ e2 ∙ e
    ]

  -- A step that changes nothing but the lock and where `t` is.
  pub Inv-goto :
      (p : Pc) (l : ℕ)
      → plain a ≡ true
      → Excl holds l (update s.pc t p)
      → Local (goto t p (record s { mem_lock = l })) t p
      → Inv (goto t p (record s { mem_lock = l }))
  Inv-goto p l quiet excl new =
      let g : System = goto t p (record s { mem_lock = l }) in
      record {
        excl = excl;
        local = locals s g t p new (λ j n. keeps s g j inv (record {
          not_owner = λ m o. o;
          owner = λ m o. o;
          waiting = λ m. refl;
          ready = refl;
          handed = λ v e. inl (other_waking p quiet v j e);
          wakes = λ u e (at, o, r). (other_parked p quiet u at, o, r);
        }));
        distinct = inv.distinct;
        no_null = inv.no_null;
        waited = inv.waited;
      }

  pub Inv-move :
      (p : Pc) → plain a ≡ true → holds p ≡ holds a → Local (goto t p s) t p → Inv (goto t p s)
  Inv-move p quiet same new =
      Inv-goto p s.mem_lock quiet (Excl-move s.pc t p inv.excl (same ∙ sym (ap holds h))) new

  pub Inv-unlock :
      (p : Pc)
      → plain a ≡ true
      → holds a ≡ true
      → holds p ≡ false
      → Local (mut_unlock t p s) t p
      → Inv (mut_unlock t p s)
  unfolding mut_unlock lock_release
  Inv-unlock p quiet held out new =
      let (word, after) = Excl-release s.pc t p inv.excl (ap holds h ∙ held) out in
      let l : lock_release s.mem_lock ≡ 1 = simp word refl in
      Inv-goto p (lock_release s.mem_lock) quiet
        (subst (λ (x : ℕ). Excl holds x (update s.pc t p)) (sym l) after) new

  -- A round of mut_lock, which goes on or stays where it is.
  pub Inv-lock :
      (p : Pc)
      → plain a ≡ true
      → holds a ≡ false
      → ((l : ℕ) → Local (goto t p (record s { mem_lock = l })) t p)
      → ((l : ℕ) → Local (goto t a (record s { mem_lock = l })) t a)
      → Inv (mut_lock t p a s)
  unfolding mut_lock
  Inv-lock p quiet out new again = elim inv.excl.word [
    | inl taken ↦
        let no : (s.mem_lock == 1) ≡ false = ground (arith, taken) in
        simp no (
          Inv-goto a s.mem_lock quiet (Excl-move s.pc t a inv.excl (sym (ap holds h)))
            (again s.mem_lock))
    | inr free ↦
        let yes_free : (s.mem_lock == 1) ≡ true = ground (arith, free) in
        simp yes_free (
          Inv-goto p 0 quiet
            (Excl-acquire s.pc t p (subst (λ (x : ℕ). Excl holds x s.pc) free inv.excl)) (new 0))
  ]
