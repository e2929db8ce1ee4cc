-- ===== src/ManyMany/Contend/Steps.antt =====
-- Every step of the threads on the mutex keeps the invariant.
use libthreads_c.Base.{
  ℕ, ◌≡◌, ◌≢◌, refl, Bool, true, false, List, [], ◌∷◌, inl, inr, arith, Bool-cases, ◌==◌,
}
use libthreads_c.ManyMany.Contend.{
  outside, locking, testing, trying, try_testing, granted, refused, switching, parking, parked,
  inside, releasing, unlocking, checking, denied, waking, System, hand_over, back, Step, call_lock,
  lock_round, lock_tests, lock_returns, lock_switches, post_wait, lock_resumes, call_trylock,
  trylock_round, trylock_tests, trylock_fails, call_unlock, misuse_unlock, unlock_round,
  unlock_checks, unlock_denied, unlock_wakes, unlock_returns, lock_or_wait, lock_or_fail,
  check_owner, mut_unlock,
}
use libthreads_c.ManyMany.Contend.Facts.{holds, Owner, Local, Inv}
use libthreads_c.ManyMany.Contend.Moves.{mine, Inv-move, Inv-unlock, Inv-lock}
use libthreads_c.ManyMany.Contend.Handover.{
  Inv-grant, Inv-queue, Inv-free, Inv-hand, Inv-wake, Inv-resume,
}

module _ (s : System) (inv : Inv s) where
  lock_tests-Inv : (t : ℕ) → s.pc t ≡ testing → Inv (lock_or_wait t s)
  lock_tests-Inv t h = elim (Bool-cases (s.owner == 0)) [
    | inl e ↦
        simp e (Inv-grant s inv t testing h refl refl (ground (arith, e)) (mine s inv t testing h))
    | inr e ↦
        simp e (Inv-queue s inv t testing h refl refl (ground (arith, e)) (mine s inv t testing h))
  ]

  trylock_tests-Inv : (t : ℕ) → s.pc t ≡ try_testing → Inv (lock_or_fail t s)
  trylock_tests-Inv t h = elim (Bool-cases (s.owner == 0)) [
    | inl e ↦
        simp e (
          Inv-grant s inv t try_testing h refl refl (ground (arith, e))
            (mine s inv t try_testing h))
    | inr e ↦ simp e (Inv-move s inv t try_testing h refused refl refl (mine s inv t try_testing h))
  ]

  owns : (t : ℕ) (b : Bool) → Local s t (checking b) → s.owner ≡ t → Owner s t
  owns t true l e = l
  owns t false l e = absurd (l.1 e)

  denied_to : (t : ℕ) (b : Bool) → Local s t (checking b) → s.owner ≢ t → Local s t (denied b)
  denied_to t true l e = e l.1
  denied_to t false l e = l

  hand_over-Inv :
      (t : ℕ) (b : Bool) (l : List ℕ)
      → s.waitll ≡ l
      → s.pc t ≡ checking b
      → Owner s t
      → Inv (hand_over t l s)
  hand_over-Inv t b [] e h o = Inv-free s inv t (checking b) h refl refl e o
  hand_over-Inv t b (u ∷ rest) e h o = Inv-hand s inv t (checking b) h refl u rest refl e o

  unlock_checks-Inv : (t : ℕ) (b : Bool) → s.pc t ≡ checking b → Inv (check_owner t b s)
  unlock_checks-Inv t b h = elim (Bool-cases (s.owner == t)) [
    | inl e ↦ simp e (
        hand_over-Inv t b s.waitll refl h
          (owns t b (mine s inv t (checking b) h) (ground (arith, e))))
    | inr e ↦ simp e (
        Inv-move s inv t (checking b) h (denied b) refl refl
          (denied_to t b (mine s inv t (checking b) h) (ground (arith, e))))
  ]

  goes_back :
      (t : ℕ) (b : Bool)
      → s.pc t ≡ denied b
      → Local s t (denied b)
      → (holds (back b) ≡ false) × Local s t (back b)
  goes_back t true h l = absurd l
  goes_back t false h l = (refl, λ n. l)

  pub Inv-Step : (g : System) → Step s g → Inv g
  unfolding mut_unlock
  Inv-Step _ (call_lock t n h) =
      Inv-move s inv t outside h locking refl refl (mine s inv t outside h n)
  Inv-Step _ (lock_round t h) =
      let l = mine s inv t locking h in
      Inv-lock s inv t locking h testing refl refl (λ w. l) (λ w. l)
  Inv-Step _ (lock_tests t h) = lock_tests-Inv t h
  Inv-Step _ (lock_returns t h) =
      Inv-unlock s inv t granted h inside refl refl refl (mine s inv t granted h)
  Inv-Step _ (lock_switches t h) =
      Inv-move s inv t switching h parking refl refl (mine s inv t switching h)
  Inv-Step _ (post_wait t h) =
      Inv-unlock s inv t parking h parked refl refl refl (inl (mine s inv t parking h))
  Inv-Step _ (lock_resumes t h r) = Inv-resume s inv t parked h refl r
  Inv-Step _ (call_trylock t n h) =
      Inv-move s inv t outside h trying refl refl (mine s inv t outside h n)
  Inv-Step _ (trylock_round t h) =
      let l = mine s inv t trying h in
      Inv-lock s inv t trying h try_testing refl refl (λ w. l) (λ w. l)
  Inv-Step _ (trylock_tests t h) = trylock_tests-Inv t h
  Inv-Step _ (trylock_fails t h) =
      Inv-unlock s inv t refused h outside refl refl refl (λ n. mine s inv t refused h)
  Inv-Step _ (call_unlock t h) =
      Inv-move s inv t inside h (unlocking true) refl refl (mine s inv t inside h)
  Inv-Step _ (misuse_unlock t n h) =
      Inv-move s inv t outside h (unlocking false) refl refl (mine s inv t outside h n)
  Inv-Step _ (unlock_round t true h) =
      let l = mine s inv t (unlocking true) h in
      Inv-lock s inv t (unlocking true) h (checking true) refl refl (λ w. l) (λ w. l)
  Inv-Step _ (unlock_round t false h) =
      let l = mine s inv t (unlocking false) h in
      Inv-lock s inv t (unlocking false) h (checking false) refl refl (λ w. l) (λ w. l)
  Inv-Step _ (unlock_checks t b h) = unlock_checks-Inv t b h
  Inv-Step _ (unlock_denied t true h) = absurd (mine s inv t (denied true) h)
  Inv-Step _ (unlock_denied t false h) =
      Inv-unlock s inv t (denied false) h outside refl refl refl
        (λ n. mine s inv t (denied false) h)
  Inv-Step _ (unlock_wakes t u h) = Inv-wake s inv t (waking u) h u refl
  Inv-Step _ (unlock_returns t h) =
      Inv-unlock s inv t releasing h outside refl refl refl (λ n. mine s inv t releasing h)
