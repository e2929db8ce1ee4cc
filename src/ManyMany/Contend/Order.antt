-- ===== src/ManyMany/Contend/Order.antt =====
-- What holds however the threads on the mutex interleave.
use libthreads_c.Base.{ℕ, ◌≡◌, ◌≢◌, ◌∙◌, refl, sym, Bool, true, false, ◌⊎◌, inr}
use libthreads_c.ManyMany.Contend.{
  Pc, granted, parked, inside, unlocking, checking, denied, waking, System, Reachable, start, next,
}
use libthreads_c.ManyMany.Contend.Facts.{Local, Inv}
use libthreads_c.ManyMany.Contend.Moves.{mine}
use libthreads_c.ManyMany.Contend.Steps.{Inv-Step}

Reachable-Inv : (s : System) → Reachable s → Inv s
Reachable-Inv _ start = record {
  excl = record { word = inr refl; free = λ e t. refl; alone = λ t u h h'. cc };
  local = λ t n. (n, (λ e. n (sym e)), refl, refl);
  distinct = tt;
  no_null = refl;
  waited = λ e. refl;
}
Reachable-Inv _ (next s g r step) = Inv-Step s (Reachable-Inv s r) g step

-- From the return of lock to the change of the owner in unlock.
abbrev pub within : Pc → Bool
within granted = true
within inside = true
within (unlocking was_inside) = was_inside
within (checking was_inside) = was_inside
within _ = false

-- The thread is on the ready list, or another one is about to put it there.
abbrev pub OnItsWay : System → ℕ → Type 0
OnItsWay s t = (s.pc t ≡ parked) × ((s.ready t ≡ true) ⊎ ((v : ℕ) × (s.pc v ≡ waking t)))

within-owner : (s : System) (t : ℕ) (p : Pc) → Local s t p → within p ≡ true → s.owner ≡ t
within-owner s t granted l w = l.1
within-owner s t inside l w = l.1
within-owner s t (unlocking true) l w = l.1
within-owner s t (checking true) l w = l.1
within-owner s t (unlocking false) l w = cc w
within-owner s t (checking false) l w = cc w
within-owner s t _ l w = cc w

module _ (s : System) (r : Reachable s) (t : ℕ) where
  -- However the threads interleave, and whoever calls unlock, at most one thread is between the return of its lock
  -- or trylock and the change of the owner in its unlock. It is the owner, and its unlock is not denied.
  pub one_inside :
      ((u : ℕ) → within (s.pc t) ≡ true → within (s.pc u) ≡ true → (u ≡ t) × (s.owner ≡ t))
      × (s.pc t ≢ denied true)
  one_inside =
      let inv = Reachable-Inv s r in
      (
        λ u h h'.
            let mine' = within-owner s t (s.pc t) (inv.local t) h in
            (sym (within-owner s u (s.pc u) (inv.local u) h') ∙ mine', mine'),
        λ h. mine s inv t (denied true) h,
      )

  -- A thread that an unlock is about to put on the ready list is the owner already, and it is parked: its context
  -- is saved, and the lock that it took before it waited has been released by its dispatcher.
  pub handed_parked :
      (u : ℕ) → s.pc t ≡ waking u → (s.pc u ≡ parked) × (s.owner ≡ u) × (s.ready u ≡ false)
  handed_parked u h =
      let (l, at, o, ready) = mine s (Reachable-Inv s r) t (waking u) h in (at, o, ready)
