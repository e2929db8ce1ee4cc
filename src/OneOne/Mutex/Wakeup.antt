-- ===== src/OneOne/Mutex/Wakeup.antt =====
-- No wake is lost on the futex mutex.
use libthreads_c.Base.{
  ℕ, ◌≡◌, ◌≢◌, ◌∙◌, refl, sym, ap, Bool, true, false, ◌⊎◌, inl, inr, ◌==◌, ==-refl, Bool-cases,
  update-cases, arith,
}
use libthreads_c.Mods.Utils.{atomic_cas}
use libthreads_c.OneOne.Mutex.{
  mutex_acquired, mutex_not_acquired, Pc, outside, locking, waiting, asleep, trying, owning, inside,
  disowning, releasing, waking, System, goto, mut_acq_lock, check_owner, Step, call_lock, lock_cas,
  lock_wait, interrupted, call_trylock, trylock_cas, lock_returns, unlock_outside, unlock_inside,
  unlock_clear, unlock_release, wake_one, wake_none, Reachable, start, next,
}

-- Awake, and about to see to it that the mutex is taken or a sleeper woken.
abbrev pub alert : Pc → Bool
alert outside = false
alert locking = true
alert waiting = true
alert asleep = false
alert trying = false
alert owning = false
alert inside = false
alert disowning = false
alert releasing = false
alert waking = true

abbrev pub Alert : System → Type 0
Alert s = (v : ℕ) × (alert (s.pc v) ≡ true)

-- While the mutex is free, a thread that sleeps is not alone.
abbrev pub Attended : System → Type 0
Attended s = s.lock ≡ 1 → (u : ℕ) → s.pc u ≡ asleep → Alert s

module _ (s : System) (t : ℕ) (p : Pc) where
  Alert-goto : Alert s → alert (s.pc t) ≡ false → Alert (goto t p s)
  Alert-goto (v, a) quiet = elim (update-cases s.pc t v p) [
    | inl (e, e') ↦ absurd (cc (a, quiet, e))
    | inr (e, e') ↦ (v, ap alert e' ∙ a)
  ]

  -- A thread that becomes alert attends to all sleepers.
  Attended-alert : alert p ≡ true → Attended (goto t p s)
  Attended-alert a free u h = (t, simp ==-refl a)

  -- So does any other move of a thread that was not alert, unless it goes to sleep.
  Attended-goto : Attended s → alert (s.pc t) ≡ false → p ≢ asleep → Attended (goto t p s)
  Attended-goto att quiet up free u h = elim (update-cases s.pc t u p) [
    | inl (e, e') ↦ absurd (up (sym e' ∙ h))
    | inr (e, e') ↦ Alert-goto (att free u (sym e' ∙ h)) quiet
  ]

Attended-acquire :
    (s : System) (t : ℕ) (failed : Pc)
    → Attended s
    → (alert failed ≡ true) ⊎ ((alert (s.pc t) ≡ false) × (failed ≢ asleep))
    → Attended (mut_acq_lock t failed s)
Attended-acquire s t failed att why = elim (Bool-cases (s.lock == 1)) [
  | inl e ↦ simp e (λ free u h. absurd (omega arith))
  | inr e ↦ simp e (elim why [
    | inl a ↦ Attended-alert (record s { lock = s.lock }) t failed a
    | inr (quiet, up) ↦ Attended-goto (record s { lock = s.lock }) t failed att quiet up
  ])
]

Attended-check :
    (s : System) (t : ℕ) → Attended s → alert (s.pc t) ≡ false → Attended (check_owner t s)
Attended-check s t att quiet = elim (Bool-cases (s.owner == t)) [
  | inl e ↦ simp e (Attended-goto s t disowning att quiet (λ e. cc))
  | inr e ↦ simp e att
]

Attended-step : (s g : System) → Attended s → Step s g → Attended g
Attended-step s _ att (call_lock t h) = Attended-alert s t locking refl
Attended-step s _ att (lock_cas t h) = Attended-acquire s t waiting att (inl refl)
Attended-step s _ att (lock_wait t h) = elim (Bool-cases (s.lock == 0)) [
  | inl e ↦ simp e (λ free u h. absurd (ground (arith, free)))
  | inr e ↦ simp e (Attended-alert s t locking refl)
]
Attended-step s _ att (interrupted t h) = Attended-alert s t locking refl
Attended-step s _ att (call_trylock t h) = Attended-goto s t trying att (ap alert h) (λ e. cc)
Attended-step s _ att (trylock_cas t h) =
    Attended-acquire s t outside att (inr (ap alert h, λ e. cc))
Attended-step s _ att (lock_returns t n h) =
    Attended-goto (record s { owner = t }) t inside att (ap alert h) (λ e. cc)
Attended-step s _ att (unlock_outside t n h) = Attended-check s t att (ap alert h)
Attended-step s _ att (unlock_inside t n h) = Attended-check s t att (ap alert h)
Attended-step s _ att (unlock_clear t h) =
    Attended-goto (record s { owner = 0 }) t releasing att (ap alert h) (λ e. cc)
Attended-step s _ att (unlock_release t h) =
    Attended-alert (record s { lock = (atomic_cas s.lock mutex_acquired mutex_not_acquired).1 }) t
      waking refl
Attended-step s _ att (wake_one t u h h') = λ free v hv.
    let apart : (u == t) ≡ false = elim (Bool-cases (u == t)) [
      | inl e ↦ let e' : u ≡ t = ground arith in absurd (cc (h, h', e'))
      | inr e ↦ e
    ] in
    (u, simp (apart, ==-refl) refl)
Attended-step s _ att (wake_none t h none) = λ free v hv. elim (update-cases s.pc t v outside) [
  | inl (e, e') ↦ absurd (cc (hv, e'))
  | inr (e, e') ↦ absurd (none v (sym e' ∙ hv))
]

alert-cases : (p : Pc) → alert p ≡ true → (p ≡ locking) ⊎ (p ≡ waiting) ⊎ (p ≡ waking)
alert-cases outside h = cc
alert-cases locking h = inl refl
alert-cases waiting h = inr (inl refl)
alert-cases asleep h = cc
alert-cases trying h = cc
alert-cases owning h = cc
alert-cases inside h = cc
alert-cases disowning h = cc
alert-cases releasing h = cc
alert-cases waking h = inr (inr refl)

Reachable-Attended : (s : System) → Reachable s → Attended s
Reachable-Attended _ start = λ free u h. cc
Reachable-Attended _ (next s g r step) = Attended-step s g (Reachable-Attended s r) step

-- Whenever the mutex is free and a thread sleeps on it, some thread is awake and on its way to
-- try the mutex again or to wake a sleeper: no thread sleeps on a free mutex that all others have
-- left.
pub no_lost_wakeup :
    (s : System) (u : ℕ)
    → Reachable s
    → s.lock ≡ 1
    → s.pc u ≡ asleep
    → (v : ℕ) × ((s.pc v ≡ locking) ⊎ (s.pc v ≡ waiting) ⊎ (s.pc v ≡ waking))
no_lost_wakeup s u r free h =
    let (v, a) = Reachable-Attended s r free u h in (v, alert-cases (s.pc v) a)
