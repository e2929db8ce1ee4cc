-- ===== src/OneOne/Spin/Exclusion.antt =====
-- Who holds a spinlock, and who may release it.
use libthreads_c.Base.{
  ℕ, ◌≡◌, ◌≢◌, ◌∙◌, refl, sym, ap, subst, Bool, true, false, ◌⊎◌, inl, inr, Bool-cases, update,
  update-cases, arith, ◌==◌,
}
use libthreads_c.Base.Holders.{Excl, Excl-move, Excl-acquire, Excl-release}
use libthreads_c.OneOne.Spin.{
  Pc, outside, locking, trying, busy, owning, inside, clearing, releasing, checking, denied, System,
  goto, spin_acq_lock, spin_check_owner, spin_rel_lock, back, Step, call_lock, lock_round,
  call_trylock, try_once, try_fail, lock_own, call_unlock, misuse_unlock, unlock_check,
  unlock_clear, unlock_release, unlock_fail, Reachable, start, next,
}

-- The thread holds the spinlock.
abbrev pub holds : Pc → Bool
holds owning = true
holds inside = true
holds clearing = true
holds releasing = true
holds (checking was_inside) = was_inside
holds (denied was_inside) = was_inside
holds _ = false

abbrev Stranger : ℕ → ℕ → Type 0
Stranger owner t = t ≢ 0 → owner ≢ t

-- A holder is the owner, but while it stores itself or is about to release; nobody else is. Nobody inside is
-- denied.
abbrev Local : ℕ → ℕ → Pc → Type 0
Local owner t outside = Stranger owner t
Local owner t locking = (t ≢ 0) × Stranger owner t
Local owner t trying = (t ≢ 0) × Stranger owner t
Local owner t busy = Stranger owner t
Local owner t owning = (t ≢ 0) × (owner ≡ 0)
Local owner t inside = (t ≢ 0) × (owner ≡ t)
Local owner t clearing = (t ≢ 0) × (owner ≡ t)
Local owner t releasing = (t ≢ 0) × (owner ≡ 0)
Local owner t (checking true) = (t ≢ 0) × (owner ≡ t)
Local owner t (checking false) = (t ≢ 0) × Stranger owner t
Local owner t (denied true) = ⊥
Local owner t (denied false) = Stranger owner t

record Inv (s : System) : Type 0 where
  excl : Excl holds s.lock s.pc
  local : (t : ℕ) → Local s.owner t (s.pc t)
  unowned : s.lock ≡ 1 → s.owner ≡ 0

-- What a thread that does not hold the spinlock relies on, when the owner changes to another one.
Local-owner :
    (owner o a : ℕ) (p : Pc) → holds p ≡ false → (a ≢ 0 → o ≢ a) → Local owner a p → Local o a p
Local-owner owner o a outside quiet other l = other
Local-owner owner o a locking quiet other (n, l) = (n, other)
Local-owner owner o a trying quiet other (n, l) = (n, other)
Local-owner owner o a busy quiet other l = other
Local-owner owner o a owning quiet other l = cc
Local-owner owner o a inside quiet other l = cc
Local-owner owner o a clearing quiet other l = cc
Local-owner owner o a releasing quiet other l = cc
Local-owner owner o a (checking true) quiet other l = cc
Local-owner owner o a (checking false) quiet other (n, l) = (n, other)
Local-owner owner o a (denied true) quiet other l = cc
Local-owner owner o a (denied false) quiet other l = other

module _ (s : System) (inv : Inv s) where
  at_pc : (t : ℕ) (p : Pc) → s.pc t ≡ p → Local s.owner t p
  at_pc t p e = subst (λ (q : Pc). Local s.owner t q) e (inv.local t)

  locals : (t : ℕ) (p : Pc) → Local s.owner t p → (a : ℕ) → Local s.owner a (update s.pc t p a)
  locals t p l a = elim (update-cases s.pc t a p) [
    | inl (e, e') ↦ rw (e', e) l
    | inr (e, e') ↦ rw e' (inv.local a)
  ]

  -- A move of `t` alone.
  Inv-goto : (t : ℕ) (p : Pc) → holds p ≡ holds (s.pc t) → Local s.owner t p → Inv (goto t p s)
  Inv-goto t p eq l = record {
    excl = Excl-move s.pc t p inv.excl eq;
    local = locals t p l;
    unowned = inv.unowned;
  }

  Inv-acquire :
      (t : ℕ) (q p : Pc)
      → s.pc t ≡ q
      → holds q ≡ false
      → holds p ≡ false
      → t ≢ 0
      → Local s.owner t p
      → Inv (spin_acq_lock p t s)
  Inv-acquire t q p h quiet quiet' n l = elim inv.excl.word [
    | inl e ↦
        let e' : (s.lock == 1) ≡ false = ground arith in
        simp e' (Inv-goto t p (quiet' ∙ sym (ap holds h ∙ quiet)) l)
    | inr e ↦
        let e' : (s.lock == 1) ≡ true = ground arith in
        simp e' (record {
          excl = Excl-acquire s.pc t owning (subst (λ (l : ℕ). Excl holds l s.pc) e inv.excl);
          local = locals t owning (n, inv.unowned e);
          unowned = λ x. absurd (omega arith);
        })
  ]

  -- A holder changes the owner.
  Inv-owner :
      (t : ℕ) (p : Pc) (o : ℕ)
      → holds (s.pc t) ≡ true
      → holds p ≡ true
      → ((a : ℕ) → a ≢ t → a ≢ 0 → o ≢ a)
      → Local o t p
      → Inv (goto t p (record s { owner = o }))
  Inv-owner t p o held held' other l = record {
    excl = Excl-move s.pc t p inv.excl (held' ∙ sym held);
    local = λ a. elim (update-cases s.pc t a p) [
      | inl (e, e') ↦ rw (e', e) l
      | inr (e, e') ↦ rw e' (
          Local-owner s.owner o a (s.pc a)
            (elim (Bool-cases (holds (s.pc a))) [
              | inl x ↦ absurd (e (inv.excl.alone a t x held))
              | inr x ↦ x
            ])
            (other a e) (inv.local a))
    ];
    unowned = λ x. absurd (cc (held, inv.excl.free x t));
  }

  Inv-check :
      (t : ℕ) (was_inside : Bool)
      → s.pc t ≡ checking was_inside
      → Inv (spin_check_owner was_inside t s)
  Inv-check t true h =
      let (n, mine) = at_pc t (checking true) h in
      let e : (s.owner == t) ≡ true = ground arith in
      simp e (Inv-goto t clearing (sym (ap holds h)) (n, mine))
  Inv-check t false h =
      let (n, other) = at_pc t (checking false) h in
      let foreign : s.owner ≢ t = other n in
      let e : (s.owner == t) ≡ false = ground arith in
      simp e (Inv-goto t (denied false) (sym (ap holds h)) other)

  Inv-release : (t : ℕ) → s.pc t ≡ releasing → Inv (spin_rel_lock t s)
  Inv-release t h =
      let (n, nobody) = at_pc t releasing h in
      let (zero_l, excl) = Excl-release s.pc t outside inv.excl (ap holds h) refl in
      simp zero_l (record {
        excl = excl;
        local = locals t outside (λ _ e. n (sym e ∙ nobody));
        unowned = λ _. nobody;
      })

  Inv-fail :
      (t : ℕ) (was_inside : Bool) → s.pc t ≡ denied was_inside → Inv (goto t (back was_inside) s)
  Inv-fail t true h = absurd (at_pc t (denied true) h)
  Inv-fail t false h = Inv-goto t outside (sym (ap holds h)) (at_pc t (denied false) h)

Inv-Step : (s g : System) → Inv s → Step s g → Inv g
Inv-Step s _ inv (call_lock t n h) =
    Inv-goto s inv t locking (sym (ap holds h)) (n, at_pc s inv t outside h)
Inv-Step s _ inv (lock_round t h) =
    let l = at_pc s inv t locking h in Inv-acquire s inv t locking locking h refl refl l.0 l
Inv-Step s _ inv (call_trylock t n h) =
    Inv-goto s inv t trying (sym (ap holds h)) (n, at_pc s inv t outside h)
Inv-Step s _ inv (try_once t h) =
    let (n, l) = at_pc s inv t trying h in Inv-acquire s inv t trying busy h refl refl n l
Inv-Step s _ inv (try_fail t h) = Inv-goto s inv t outside (sym (ap holds h)) (at_pc s inv t busy h)
Inv-Step s _ inv (lock_own t h) =
    Inv-owner s inv t inside t (ap holds h) refl (λ a ne _ e. ne (sym e))
      ((at_pc s inv t owning h).0, refl)
Inv-Step s _ inv (call_unlock t h) =
    Inv-goto s inv t (checking true) (sym (ap holds h)) (at_pc s inv t inside h)
Inv-Step s _ inv (misuse_unlock t n h) =
    Inv-goto s inv t (checking false) (sym (ap holds h)) (n, at_pc s inv t outside h)
Inv-Step s _ inv (unlock_check t b h) = Inv-check s inv t b h
Inv-Step s _ inv (unlock_clear t h) =
    Inv-owner s inv t releasing 0 (ap holds h) refl (λ a ne n e. n (sym e))
      ((at_pc s inv t clearing h).0, refl)
Inv-Step s _ inv (unlock_release t h) = Inv-release s inv t h
Inv-Step s _ inv (unlock_fail t b h) = Inv-fail s inv t b h

Reachable-Inv : (s : System) → Reachable s → Inv s
Reachable-Inv _ start = record {
  excl = record { word = inr refl; free = λ e t. refl; alone = λ t u h h'. cc };
  local = λ t n e. n (sym e);
  unowned = λ _. refl;
}
Reachable-Inv _ (next s g r step) = Inv-Step s g (Reachable-Inv s r) step

-- However the threads interleave, and whoever calls unlock: a thread that is inside, or whose unlock is about
-- to clear the owner, is the owner, the lock word says that the spinlock is taken, and no other thread holds
-- it. So no unlock gets that far while another thread holds the spinlock.
pub spin_exclusion :
    (s : System) (t u : ℕ)
    → Reachable s
    → (s.pc t ≡ inside) ⊎ (s.pc t ≡ clearing)
    → holds (s.pc u) ≡ true
    → (s.owner ≡ t) × (s.lock ≡ 0) × (u ≡ t)
spin_exclusion s t u r at held =
    let inv = Reachable-Inv s r in
    let mine : holds (s.pc t) ≡ true = elim at [ inl h ↦ ap holds h | inr h ↦ ap holds h ] in
    (
      elim at [ inl h ↦ (at_pc s inv t inside h).1 | inr h ↦ (at_pc s inv t clearing h).1 ],
      elim inv.excl.word [ inl e ↦ e | inr e ↦ absurd (cc (mine, inv.excl.free e t)) ],
      inv.excl.alone u t held mine,
    )
