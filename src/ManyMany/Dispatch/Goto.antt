-- ===== src/ManyMany/Dispatch/Goto.antt =====
-- The moves of a dispatcher that keep the invariant and the locks, with and without a lock.
use libthreads_c.Base.{
  ℕ, ◌≡◌, ◌≢◌, ◌∙◌, refl, sym, ap, Bool, true, false, inl, inr, arith, update, ◌==◌, subst,
}
use libthreads_c.ManyMany.Dispatch.{Pc, registered, System, goto, set_intr, td_lock, td_unlock}
use libthreads_c.ManyMany.Dispatch.Places.{in_hand, locked, ends, Place, Local, Inv, Locks}
use libthreads_c.ManyMany.Dispatch.Moves.{Inv-quiet}
use libthreads_c.ManyMany.Dispatch.Locks.{Locks-same, Locks-kept, Locks-acquire, Locks-release}

abbrev pub Good : System → Type 0
Good s = (place : ℕ → Place) × Inv s place × Locks s.mem_lock s.context s.pc

module _ (s : System) (place : ℕ → Place) (inv : Inv s place)
    (locks : Locks s.mem_lock s.context s.pc) where
  pub at_pc : (k : ℕ) (p : Pc) → s.pc k ≡ p → Local s place k p
  at_pc k p h = subst (Local s place k) h (inv.local k)

  -- A move of the dispatcher `k` from `a` to `b` with the same thread in hand.
  pub record Quiet (k : ℕ) (a b : Pc) : Type 0 where
    pub from : s.pc k ≡ a
    pub hand : in_hand b ≡ in_hand a
    pub still : ends b ≡ ends a
    pub free : (q : ℕ) → a ≡ registered (s.join_thread q) q → s.over q ≡ true
    pub mine : Local s place k b

  Good-quiet :
      (k : ℕ) (a b : Pc) (l : ℕ → ℕ) (io : ℕ → Bool)
      → Quiet k a b
      → Locks l s.context (update s.pc k b)
      → Good (goto k b (record s { mem_lock = l; intr_off = io }))
  Good-quiet k a b l io c locks' = (
    place,
    Inv-quiet s place inv k b l s.saved s.context io (λ x n. refl)
        (c.hand ∙ sym (ap in_hand c.from)) (c.still ∙ sym (ap ends c.from))
        (λ q e. c.free q (sym c.from ∙ e)) c.mine,
    locks',
  )

  pub Good-goto : (k : ℕ) (a b : Pc) → Quiet k a b → locked b ≡ locked a → Good (goto k b s)
  Good-goto k a b c e =
      Good-quiet k a b s.mem_lock s.intr_off c
        (Locks-same s.mem_lock s.context s.pc locks k b (e ∙ sym (ap locked c.from)))

  -- One that turns the interrupts of a thread on or off.
  pub Good-intr :
      (k q : ℕ) (off : Bool) (a b : Pc)
      → Quiet k a b
      → locked b ≡ locked a
      → Good (set_intr k q off b s)
  Good-intr k q off a b c e =
      Good-quiet k a b s.mem_lock (update s.intr_off q off) c
        (Locks-same s.mem_lock s.context s.pc locks k b (e ∙ sym (ap locked c.from)))

  pub Good-unlock :
      (k q : ℕ) (a b : Pc)
      → Quiet k a b
      → q ≢ 0
      → locked a ≡ q
      → locked b ≡ 0
      → Good (td_unlock k q b s)
  unfolding td_unlock
  Good-unlock k q a b c n e e' =
      Good-quiet k a b _ s.intr_off c
        (Locks-release s.mem_lock s.context s.pc locks k b q n e' (ap locked c.from ∙ e))

  pub Good-lock :
      (k q : ℕ) (a b : Pc)
      → Quiet k a b
      → Quiet k a a
      → q ≢ 0
      → locked a ≡ 0
      → locked b ≡ q
      → Good (td_lock k q b a s)
  unfolding td_lock
  Good-lock k q a b c c' n e e' = elim ((locks.held q n).word) [
    | inl taken ↦
        let no : (s.mem_lock q == 1) ≡ false = ground (arith, taken) in
        simp no (
          Good-quiet k a a _ s.intr_off c'
            (Locks-kept s.mem_lock s.context s.pc locks k a q (sym (ap locked c.from))))
    | inr free ↦
        let ok : (s.mem_lock q == 1) ≡ true = ground (arith, free) in
        simp ok (
          Good-quiet k a b _ s.intr_off c
            (Locks-acquire s.mem_lock s.context s.pc locks k b q free e' (ap locked c.from ∙ e)))
  ]
