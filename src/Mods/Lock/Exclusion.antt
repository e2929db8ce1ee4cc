-- ===== src/Mods/Lock/Exclusion.antt =====
-- Who is in a critical section of the lock.
use libthreads_c.Base.{
  ℕ, ◌≡◌, ◌≢◌, ◌∙◌, refl, sym, subst, ◌⊎◌, inl, inr, ==-refl, update, update-cases,
}
use libthreads_c.Mods.Lock.{lock_init, lock_try, lock_release}
use libthreads_c.Mods.Lock.Threads.{
  Pc, outside, acquiring, critical, Users, fresh, try_round, leave, Step, call, round, release,
  Reachable, start, next,
}

-- The lock is free and nobody is in a critical section, or it is taken and just one thread is.
abbrev pub Exclusive : Users → Type 0
Exclusive u =
    ((u.lock ≡ 1) × ((t : ℕ) → u.pc t ≢ critical))
    ⊎ ((u.lock ≡ 0) × ((h : ℕ) × (u.pc h ≡ critical) × ((t : ℕ) → u.pc t ≡ critical → t ≡ h)))

-- A move of `t` that is in no critical section before it or after it.
Exclusive-quiet :
    (u : Users) (t : ℕ) (p : Pc)
    → Exclusive u
    → u.pc t ≢ critical
    → p ≢ critical
    → Exclusive (record u { pc = update u.pc t p })
Exclusive-quiet u t p (inl (e, none)) before after = inl (
  e,
  λ a. elim (update-cases u.pc t a p) [
    | inl (h, h') ↦ λ c. after (sym h' ∙ c)
    | inr (h, h') ↦ λ c. none a (sym h' ∙ c)
  ],
)
Exclusive-quiet u t p (inr (e, (h, at, only))) before after = inr (
  e,
  (
    h,
    elim (update-cases u.pc t h p) [
      | inl (i, i') ↦ absurd (before (subst (λ (x : ℕ). u.pc x ≡ critical) i at))
      | inr (i, i') ↦ i' ∙ at
    ],
    λ a. elim (update-cases u.pc t a p) [
      | inl (i, i') ↦ λ c. absurd (after (sym i' ∙ c))
      | inr (i, i') ↦ λ c. only a (sym i' ∙ c)
    ],
  ),
)

Exclusive-step : (u g : Users) → Exclusive u → Step u g → Exclusive g
unfolding try_round leave lock_try lock_release
Exclusive-step u _ ex (call t h) = Exclusive-quiet u t acquiring ex (λ e. cc (e, h)) (λ e. cc)
Exclusive-step u _ (inl (e, none)) (round t h) = simp e (
    inr (
      refl,
      (
        t,
        simp ==-refl refl,
        λ a. elim (update-cases u.pc t a critical) [
          | inl (i, i') ↦ λ c. i
          | inr (i, i') ↦ λ c. absurd (none a (sym i' ∙ c))
        ],
      ),
    ))
Exclusive-step u _ (inr (e, held)) (round t h) = simp e (
    Exclusive-quiet (record u { lock = 0 }) t acquiring (inr (refl, held)) (λ e. cc (e, h))
      (λ e. cc))
Exclusive-step u _ (inl (e, none)) (release t h) = absurd (none t h)
Exclusive-step u _ (inr (e, (o, at, only))) (release t h) = simp e (
    inl (
      refl,
      λ a. elim (update-cases u.pc t a outside) [
        | inl (i, i') ↦ λ c. cc (i', c)
        | inr (i, i') ↦ λ c. i (only a (sym i' ∙ c) ∙ sym (only t h))
      ],
    ))

-- However the threads interleave, the lock word is LOCK_ACQUIRED exactly while one thread is in its
-- critical section, and LOCK_NOT_ACQUIRED exactly while none is; there are never two.
pub Reachable-Exclusive : (word : ℕ) (u : Users) → Reachable word u → Exclusive u
unfolding fresh lock_init
Reachable-Exclusive word _ start = inl (refl, λ t c. cc)
Reachable-Exclusive word _ (next u g r step) =
    Exclusive-step u g (Reachable-Exclusive word u r) step
