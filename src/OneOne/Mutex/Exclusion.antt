-- ===== src/OneOne/Mutex/Exclusion.antt =====
-- Mutual exclusion of the futex mutex.
use libthreads_c.Base.{
  ℕ, ◌≡◌, ◌≢◌, ◌∙◌, refl, sym, ap, subst, Bool, true, false, ◌⊎◌, inl, inr, ◌==◌, Bool-cases,
  update-cases, update, arith,
}
use libthreads_c.OneOne.Mutex.{
  Pc, outside, locking, waiting, asleep, trying, owning, inside, disowning, releasing, waking,
  System, goto, mut_acq_lock, check_owner, mut_rel_lock, Step, call_lock, lock_cas, lock_wait,
  interrupted, call_trylock, trylock_cas, lock_returns, unlock_outside, unlock_inside, unlock_clear,
  unlock_release, wake_one, wake_none, Reachable, start, next,
}

-- From the compare and swap that took the mutex to the one that gives it back.
abbrev pub holds : Pc → Bool
holds outside = false
holds locking = false
holds waiting = false
holds asleep = false
holds trying = false
holds owning = true
holds inside = true
holds disowning = true
holds releasing = true
holds waking = false

-- From the store of the owner to the store of NULL.
abbrev pub is_owner : Pc → Bool
is_owner outside = false
is_owner locking = false
is_owner waiting = false
is_owner asleep = false
is_owner trying = false
is_owner owning = false
is_owner inside = true
is_owner disowning = true
is_owner releasing = false
is_owner waking = false

owner-holds : (p : Pc) → holds p ≡ false → is_owner p ≡ false
owner-holds outside h = refl
owner-holds locking h = refl
owner-holds waiting h = refl
owner-holds asleep h = refl
owner-holds trying h = refl
owner-holds owning h = refl
owner-holds inside h = cc
owner-holds disowning h = cc
owner-holds releasing h = refl
owner-holds waking h = refl

pub record Safe (s : System) : Type 0 where
  pub word : (s.lock ≡ 0) ⊎ (s.lock ≡ 1)
  pub free : s.lock ≡ 1 → (t : ℕ) → holds (s.pc t) ≡ false
  pub alone : (t u : ℕ) → holds (s.pc t) ≡ true → holds (s.pc u) ≡ true → t ≡ u
  pub owned : (t : ℕ) → t ≢ 0 → s.owner ≡ t → is_owner (s.pc t) ≡ true
  pub owns : (t : ℕ) → is_owner (s.pc t) ≡ true → s.owner ≡ t

-- A thread that does not hold the mutex moves on and still does not hold it.
Safe-goto :
    (t : ℕ) (p : Pc) (s : System)
    → Safe s
    → holds (s.pc t) ≡ false
    → holds p ≡ false
    → Safe (goto t p s)
Safe-goto t p s safe before after =
    let keep : (a : ℕ) → holds (update s.pc t p a) ≡ holds (s.pc a) = λ a.
      elim (update-cases s.pc t a p) [
        | inl (e, e') ↦ ap holds e' ∙ after ∙ sym before ∙ ap (λ (x : ℕ). holds (s.pc x)) (sym e)
        | inr (e, e') ↦ ap holds e'
      ] in
    let keep' : (a : ℕ) → is_owner (update s.pc t p a) ≡ is_owner (s.pc a) = λ a.
      elim (update-cases s.pc t a p) [
        | inl (e, e') ↦
            ap is_owner e'
            ∙ owner-holds p after
            ∙ sym (owner-holds (s.pc t) before)
            ∙ ap (λ (x : ℕ). is_owner (s.pc x)) (sym e)
        | inr (e, e') ↦ ap is_owner e'
      ] in
    record {
      word = safe.word;
      free = λ e a. keep a ∙ safe.free e a;
      alone = λ a b h h'. safe.alone a b (sym (keep a) ∙ h) (sym (keep b) ∙ h');
      owned = λ a n e. keep' a ∙ safe.owned a n e;
      owns = λ a h. safe.owns a (sym (keep' a) ∙ h);
    }

module _ (s : System) (safe : Safe s) where
  nobody : ((t : ℕ) → holds (s.pc t) ≡ false) → s.owner ≡ 0
  nobody none = elim (Bool-cases (s.owner == 0)) [
    | inl e ↦ ground arith
    | inr e ↦
        let o : is_owner (s.pc s.owner) ≡ true = safe.owned s.owner (ground arith) refl in
        absurd (cc (o, owner-holds (s.pc s.owner) (none s.owner)))
  ]

  module _ (t : ℕ) (held : holds (s.pc t) ≡ true) where
    others : (a : ℕ) → a ≢ t → holds (s.pc a) ≡ false
    others a ne = elim (Bool-cases (holds (s.pc a))) [
      | inl h ↦ absurd (ne (safe.alone a t h held))
      | inr h ↦ h
    ]

    taken : s.lock ≡ 0
    taken = elim safe.word [ inl e ↦ e | inr e ↦ absurd (cc (held, safe.free e t)) ]

  -- At the end of a move `t` alone holds the mutex.
  Safe-holder :
      (t o l : ℕ) (p : Pc)
      → l ≡ 0
      → ((a : ℕ) → a ≢ t → holds (s.pc a) ≡ false)
      → ((is_owner p ≡ true) × (o ≡ t)) ⊎ ((is_owner p ≡ false) × (o ≡ 0))
      → Safe (record { owner = o; lock = l; pc = update s.pc t p })
  Safe-holder t o l p zero_l rest mine =
      let only : (a : ℕ) → holds (update s.pc t p a) ≡ true → a ≡ t = λ a h.
        elim (update-cases s.pc t a p) [
          | inl (e, e') ↦ e
          | inr (e, e') ↦ absurd (cc (h, e', rest a e))
        ] in
      record {
        word = inl zero_l;
        free = λ e a. absurd (omega arith);
        alone = λ a b h h'. only a h ∙ sym (only b h');
        owned = λ a n e. elim mine [
          | inl (is, o_t) ↦ elim (update-cases s.pc t a p) [
            | inl (e', e'') ↦ ap is_owner e'' ∙ is
            | inr (e', e'') ↦ absurd (e' (sym e ∙ o_t))
          ]
          | inr (is, o_0) ↦ absurd (n (sym e ∙ o_0))
        ];
        owns = λ a h. elim (update-cases s.pc t a p) [
          | inl (e, e') ↦ elim mine [
            | inl (is, o_t) ↦ o_t ∙ sym e
            | inr (is, o_0) ↦ absurd (cc (h, e', is))
          ]
          | inr (e, e') ↦ absurd (cc (h, e', owner-holds (s.pc a) (rest a e)))
        ];
      }

  Safe-acquire :
      (t : ℕ) (failed : Pc)
      → holds (s.pc t) ≡ false
      → holds failed ≡ false
      → Safe (mut_acq_lock t failed s)
  Safe-acquire t failed out quiet = elim safe.word [
    | inl e ↦ simp e (
        Safe-goto t failed (record s { lock = 0 })
          (subst (λ (l : ℕ). Safe (record s { lock = l })) e safe) out quiet)
    | inr e ↦ simp e (
        Safe-holder t s.owner 0 owning refl (λ a ne. safe.free e a)
          (inr (refl, nobody (safe.free e))))
  ]

  Safe-release : (t : ℕ) → s.pc t ≡ releasing → Safe (mut_rel_lock t s)
  Safe-release t here =
      let held : holds (s.pc t) ≡ true = ap holds here in
      let quiet : (a : ℕ) → holds (update s.pc t waking a) ≡ false = λ a.
        elim (update-cases s.pc t a waking) [
          | inl (e, e') ↦ ap holds e'
          | inr (e, e') ↦ ap holds e' ∙ others t held a e
        ] in
      let no_owner : s.owner ≡ 0 = elim (Bool-cases (s.owner == 0)) [
        | inl e ↦ ground arith
        | inr e ↦
            let o : is_owner (s.pc s.owner) ≡ true = safe.owned s.owner (ground arith) refl in
            elim (Bool-cases (s.owner == t)) [
              | inl e' ↦ let o_t : s.owner ≡ t = ground arith in absurd (cc (o, o_t, here))
              | inr e' ↦
                  absurd (cc (o, owner-holds (s.pc s.owner) (others t held s.owner (ground arith))))
            ]
      ] in
      simp (taken t held) (record {
        word = inr refl;
        free = λ e a. quiet a;
        alone = λ a b h h'. absurd (cc (h, quiet a));
        owned = λ a n e. absurd (n (sym e ∙ no_owner));
        owns = λ a h. absurd (cc (h, owner-holds (update s.pc t waking a) (quiet a)));
      })

  Safe-check : (t : ℕ) → t ≢ 0 → (s.pc t ≡ outside) ⊎ (s.pc t ≡ inside) → Safe (check_owner t s)
  Safe-check t n (inl here) = elim (Bool-cases (s.owner == t)) [
    | inl e ↦
        let o : is_owner (s.pc t) ≡ true = safe.owned t n (ground arith) in absurd (cc (o, here))
    | inr e ↦ simp e safe
  ]
  Safe-check t n (inr here) = elim (Bool-cases (s.owner == t)) [
    | inl e ↦
        let held : holds (s.pc t) ≡ true = ap holds here in
        simp e (
          Safe-holder t s.owner s.lock disowning (taken t held) (others t held)
            (inl (refl, safe.owns t (ap is_owner here))))
    | inr e ↦ simp e safe
  ]

Safe-step : (s g : System) → Safe s → Step s g → Safe g
Safe-step s _ safe (call_lock t h) = Safe-goto t locking s safe (ap holds h) refl
Safe-step s _ safe (lock_cas t h) = Safe-acquire s safe t waiting (ap holds h) refl
Safe-step s _ safe (lock_wait t h) = elim (Bool-cases (s.lock == 0)) [
  | inl e ↦ simp e (Safe-goto t asleep s safe (ap holds h) refl)
  | inr e ↦ simp e (Safe-goto t locking s safe (ap holds h) refl)
]
Safe-step s _ safe (interrupted t h) = Safe-goto t locking s safe (ap holds h) refl
Safe-step s _ safe (call_trylock t h) = Safe-goto t trying s safe (ap holds h) refl
Safe-step s _ safe (trylock_cas t h) = Safe-acquire s safe t outside (ap holds h) refl
Safe-step s _ safe (lock_returns t n h) =
    let held : holds (s.pc t) ≡ true = ap holds h in
    Safe-holder s safe t t s.lock inside (taken s safe t held) (others s safe t held)
      (inl (refl, refl))
Safe-step s _ safe (unlock_outside t n h) = Safe-check s safe t n (inl h)
Safe-step s _ safe (unlock_inside t n h) = Safe-check s safe t n (inr h)
Safe-step s _ safe (unlock_clear t h) =
    let held : holds (s.pc t) ≡ true = ap holds h in
    Safe-holder s safe t 0 s.lock releasing (taken s safe t held) (others s safe t held)
      (inr (refl, refl))
Safe-step s _ safe (unlock_release t h) = Safe-release s safe t h
Safe-step s _ safe (wake_one t u h h') =
    Safe-goto t outside (goto u locking s) (Safe-goto u locking s safe (ap holds h') refl)
      (elim (update-cases s.pc u t locking) [
        | inl (e, e') ↦ ap holds e'
        | inr (e, e') ↦ ap holds e' ∙ ap holds h
      ])
      refl
Safe-step s _ safe (wake_none t h none) = Safe-goto t outside s safe (ap holds h) refl

Reachable-Safe : (s : System) → Reachable s → Safe s
Reachable-Safe _ start = record {
  word = inr refl;
  free = λ e t. refl;
  alone = λ t u h h'. cc;
  owned = λ t n e. absurd (n (sym e));
  owns = λ t h. cc;
}
Reachable-Safe _ (next s g r step) = Safe-step s g (Reachable-Safe s r) step

-- However the threads interleave, at most one is between the compare and swap that took the mutex
-- and the one that gives it back, so at most one is between a lock or trylock that succeeded and
-- its unlock. The thread inside is the stored owner, and no other thread that asks for an unlock
-- passes the owner check.
pub mutual_exclusion :
    (s : System) (t u : ℕ)
    → Reachable s
    → holds (s.pc t) ≡ true
    → holds (s.pc u) ≡ true
    → (t ≡ u) × (s.pc t ≡ inside → s.owner ≡ t) × ((v : ℕ) → v ≢ 0 → v ≢ t → check_owner v s ≡ s)
mutual_exclusion s t u r h h' =
    let safe = Reachable-Safe s r in
    (
      safe.alone t u h h',
      λ e. safe.owns t (ap is_owner e),
      λ v n ne. elim (Bool-cases (s.owner == v)) [
        | inl e ↦
            let o : is_owner (s.pc v) ≡ true = safe.owned v n (ground arith) in
            absurd (cc (o, owner-holds (s.pc v) (others s safe t h v ne)))
        | inr e ↦ simp e refl
      ],
    )
