-- ===== src/ManyMany/Dispatch/Keeps.antt =====
-- What a step of one dispatcher leaves to the others.
use libthreads_c.Base.{ℕ, ◌≡◌, ◌≢◌, ◌∙◌, refl, sym, ap, true, inl, inr, update, update-cases}
use libthreads_c.ManyMany.Dispatch.{
  Pc, loop, chosen, sending, prepared, running, yielded, exiting, settling, leaving, waking,
  parking, joining, testing, registered, refused, returning, killing, signalling, enabling,
  resuming, System,
}
use libthreads_c.ManyMany.Dispatch.Places.{ends, Place, on, waits_for, Hand, Rests, Local, Inv}

-- What a dispatcher `j` at the point `p` needs of a step from `s` to `g`.
pub record Keeps (s g : System) (place place' : ℕ → Place) (j : ℕ) (p : Pc) : Type 0 where
  pub hand : (a : ℕ) → place a ≡ on j → place' a ≡ on j
  pub saved : (a : ℕ) → place a ≡ on j → s.saved a ≡ true → g.saved a ≡ true
  pub over : (q : ℕ) → s.over q ≡ true → g.over q ≡ true
  pub joined : (q : ℕ) → s.join_thread q ≢ 0 → g.join_thread q ≡ s.join_thread q
  pub alone : (q : ℕ) → p ≡ leaving q → g.join_thread q ≡ s.join_thread q
  pub waits : (a q : ℕ) → q ≢ 0 → ends p ≡ q → place a ≡ waits_for q → place' a ≡ waits_for q

module _ {s g : System} {place place' : ℕ → Place} {j : ℕ} where
  Hand-Keeps :
      {p : Pc} → Keeps s g place place' j p → (a : ℕ) → Hand s place j a → Hand g place' j a
  Hand-Keeps h a (n, e) = (n, h.hand a e)

  Rests-Keeps :
      {p : Pc} → Keeps s g place place' j p → (a : ℕ) → Rests s place j a → Rests g place' j a
  Rests-Keeps h a ((n, e), v) = ((n, h.hand a e), h.saved a e v)

  pub Local-Keeps : (p : Pc) → Keeps s g place place' j p → Local s place j p → Local g place' j p
  Local-Keeps loop h l = tt
  Local-Keeps (chosen p) h l = Rests-Keeps h p l
  Local-Keeps (sending p) h l = Rests-Keeps h p l
  Local-Keeps (prepared p) h l = Rests-Keeps h p l
  Local-Keeps (yielded p) h l = Rests-Keeps h p l
  Local-Keeps (running p) h l = Hand-Keeps h p l
  Local-Keeps (exiting p) h l = Hand-Keeps h p l
  Local-Keeps (settling p) h l = Hand-Keeps h p l
  Local-Keeps (parking q) h l = l
  Local-Keeps (joining p q) h (l, n) = (Hand-Keeps h p l, n)
  Local-Keeps (testing p q) h (l, n) = (Hand-Keeps h p l, n)
  Local-Keeps (killing p q) h (l, n) = (Hand-Keeps h p l, n)
  Local-Keeps (signalling p q) h (l, n) = (Hand-Keeps h p l, n)
  Local-Keeps (enabling p q) h (l, n) = (Hand-Keeps h p l, n)
  Local-Keeps (resuming p q) h (l, n) = (Hand-Keeps h p l, n)
  Local-Keeps (refused p q) h (l, n) = (Hand-Keeps h p l, n)
  Local-Keeps (returning p q) h (l, n) = (Hand-Keeps h p l, n)
  Local-Keeps (registered p q) h (l, n, e) =
      (Hand-Keeps h p l, n, h.joined q (λ z. l.0 (sym e ∙ z)) ∙ e)
  Local-Keeps (leaving q) h (n, o, w) =
      let e = h.alone q refl in
      (n, h.over q o, λ z. rw e (h.waits _ q n refl (w (λ z'. z (e ∙ z')))))
  Local-Keeps (waking q) h (n, o, m, w) =
      let e = h.joined q m in (n, h.over q o, (λ z. m (sym e ∙ z)), rw e (h.waits _ q n refl w))

-- All points, after the dispatcher `k` went to `b`.
pub locals :
    {s g : System} {place place' : ℕ → Place} (k : ℕ) (b : Pc)
    → Inv s place
    → Local g place' k b
    → ((j : ℕ) → j ≢ k → Keeps s g place place' j (s.pc j))
    → (j : ℕ) → Local g place' j (update s.pc k b j)
locals {s} k b inv mine others j = elim (update-cases s.pc k j b) [
  | inl (e, e') ↦ rw (e', e) mine
  | inr (n, e') ↦ rw e' (Local-Keeps (s.pc j) (others j n) (inv.local j))
]

-- A step that changes nothing that the others read.
pub Keeps-same :
    (s g : System) (place : ℕ → Place)
    → g.saved ≡ s.saved
    → g.over ≡ s.over
    → g.join_thread ≡ s.join_thread
    → (j : ℕ) (p : Pc) → Keeps s g place place j p
Keeps-same s g place sv ov jt j p = record {
  hand = λ a e. e;
  saved = λ a e h. rw sv h;
  over = λ q h. rw ov h;
  joined = λ q h. ap (λ (f : ℕ → ℕ). f q) jt;
  alone = λ q h. ap (λ (f : ℕ → ℕ). f q) jt;
  waits = λ a q n e h. h;
}
