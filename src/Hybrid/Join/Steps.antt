-- ===== src/Hybrid/Join/Steps.antt =====
-- The steps of the joiners keep what holds of a target and its joiners.
use libthreads_c.Base.{
  ℕ, ◌≡◌, ◌≢◌, ◌∙◌, refl, sym, ap, subst, Bool, true, false, inl, inr, Bool-cases, ==-refl, update,
  update-cases, arith, ◌==◌,
}
use libthreads_c.Hybrid.Join.{
  Pc, checking, locking, testing, refusing, refused, claiming, claimed, unlocking, waiting, asleep,
  switching, parked, spinning, finishing, fetching, marking, returned, Progress, works, rousing,
  waking, stored, leaves, locked, over, quits, gone, System, Setup, goto, check_joined, td_lock,
  td_has_join_thread, td_set_join, td_is_over, td_unlock, futex_wait, spin_round, mark_joined,
}
use libthreads_c.Hybrid.Join.Facts.{
  holds, target_holds, registered_at, is_over, launched, Local, Inv, Local-update, Local-claim,
  Excl, Excl-move, Excl-acquire, Excl-release,
}

-- A one-one target that has made its joiner ready has ended once its wait word is clear.
launched-is_over : (b : Bool) (q : Progress) → launched q ≡ true → is_over b q ≡ true → q ≡ gone
launched-is_over b works up o = cc
launched-is_over b stored up o = cc
launched-is_over b leaves up o = cc
launched-is_over b locked up o = cc
launched-is_over b over up o = cc
launched-is_over b rousing up o = cc
launched-is_over b waking up o = cc
launched-is_over b quits up o = cc
launched-is_over b gone up o = refl

-- A target with a clear wait word that tells nobody and whose lock another thread holds has ended.
is_over-gone :
    (b : Bool) (q : Progress)
    → is_over b q ≡ true
    → q ≢ rousing
    → q ≢ waking
    → target_holds q ≢ true
    → q ≡ gone
is_over-gone b works o nr nw nh = cc
is_over-gone b stored o nr nw nh = cc
is_over-gone b leaves o nr nw nh = cc
is_over-gone b locked o nr nw nh = cc
is_over-gone b over o nr nw nh = absurd (nh refl)
is_over-gone b rousing o nr nw nh = absurd (nr refl)
is_over-gone b waking o nr nw nh = absurd (nw refl)
is_over-gone b quits o nr nw nh = cc
is_over-gone b gone o nr nw nh = refl

module _ {c : Setup} (nz : c.word ≢ 0) (s : System) (inv : Inv c s) where
  pub at_pc : (t : ℕ) (p : Pc) → s.pc t ≡ p → Local c s.target.join_td s.progress t p
  at_pc t p e = subst (λ (q : Pc). Local c s.target.join_td s.progress t q) e (inv.local t)

  module _ (t : ℕ) (p q : Pc) (h : s.pc t ≡ q) (awake : q ≢ parked) where
    moved_registered :
        (registered_at q ≡ true → registered_at p ≡ true)
        → s.target.join_td ≢ 0
        → registered_at (update s.pc t p s.target.join_td) ≡ true
    moved_registered stays n = elim (update-cases s.pc t s.target.join_td p) [
      | inl (e, e') ↦
          ap registered_at e' ∙ stays (sym (ap registered_at (ap s.pc e ∙ h)) ∙ inv.registered n)
      | inr (e, e') ↦ ap registered_at e' ∙ inv.registered n
    ]

    moved_roused :
        s.progress ≡ rousing
        → (update s.pc t p s.target.join_td ≡ parked) × (c.many_many s.target.join_td ≡ true)
    moved_roused e =
        let (at, mm) = inv.roused e in
        (
          elim (update-cases s.pc t s.target.join_td p) [
            | inl (e', e'') ↦ absurd (awake (sym h ∙ (ap s.pc (sym e') ∙ at)))
            | inr (e', e'') ↦ e'' ∙ at
          ],
          mm,
        )

    -- A move of `t` alone.
    pub Inv-goto :
        holds p ≡ holds q
        → (registered_at q ≡ true → registered_at p ≡ true)
        → Local c s.target.join_td s.progress t p
        → Inv c (goto t p s)
    Inv-goto eq stays l = record {
      excl = Excl-move s.pc t p inv.excl (eq ∙ sym (ap holds h));
      idle = λ th.
          let (zero_l, none) = inv.idle th in
          (
            zero_l,
            λ a. elim (update-cases s.pc t a p) [
              | inl (e, e') ↦ ap holds e' ∙ (eq ∙ (sym (ap holds h) ∙ none t))
              | inr (e, e') ↦ ap holds e' ∙ none a
            ],
          );
      local = Local-update c s.target.join_td s.progress s.pc t p (λ a n. inv.local a) l;
      waits = inv.waits;
      result = inv.result;
      registered = moved_registered stays;
      roused = moved_roused;
      woken = inv.woken;
    }

    pub Inv-unlock :
        holds q ≡ true
        → holds p ≡ false
        → (registered_at q ≡ true → registered_at p ≡ true)
        → Local c s.target.join_td s.progress t p
        → Inv c (td_unlock t p s)
    Inv-unlock held quiet stays l =
        let (zero_l, excl) = Excl-release s.pc t p inv.excl (ap holds h ∙ held) quiet in
        simp zero_l (record {
          excl = excl;
          idle = λ th. absurd (cc ((inv.idle th).1 t, ap holds h, held));
          local = Local-update c s.target.join_td s.progress s.pc t p (λ a n. inv.local a) l;
          waits = inv.waits;
          result = inv.result;
          registered = moved_registered stays;
          roused = moved_roused;
          woken = inv.woken;
        })

  pub Inv-lock : (t : ℕ) → s.pc t ≡ locking → Inv c (td_lock t s)
  Inv-lock t h = elim inv.excl.word [
    | inl e ↦
        let e' : (s.target.mem_lock == 1) ≡ false = ground arith in
        simp e' (Inv-goto t locking locking h (λ x. cc) refl (λ x. x) (at_pc t locking h))
    | inr e ↦
        let e' : (s.target.mem_lock == 1) ≡ true = ground arith in
        simp e' (record {
          excl = Excl-acquire s.pc t testing (subst (λ (l : ℕ). Excl holds l s.pc) e inv.excl);
          idle = λ th. absurd (let (zero_l, none) = inv.idle th in omega arith);
          local =
              Local-update c s.target.join_td s.progress s.pc t testing (λ a n. inv.local a)
                (at_pc t locking h);
          waits = inv.waits;
          result = inv.result;
          registered = moved_registered t testing locking h (λ x. cc) (λ x. cc);
          roused = moved_roused t testing locking h (λ x. cc);
          woken = inv.woken;
        })
  ]

  -- Nobody else is registered, and nobody else is about to be.
  pub Inv-claim : (t : ℕ) → s.pc t ≡ claiming → Inv c (td_set_join t s)
  Inv-claim t h =
      let (n, free) = at_pc t claiming h in
      let not_rousing : s.progress ≢ rousing = λ e.
        let (at, mm) = inv.roused e in
        let ((n', r), _, _) = at_pc s.target.join_td parked at in n' free in
      let not_waking : s.progress ≢ waking = λ e. let (n', mm) = inv.woken e in n' free in
      record {
        excl = Excl-move s.pc t claimed inv.excl (sym (ap holds h));
        idle = λ th. absurd (cc ((inv.idle th).1 t, ap holds h));
        local =
            Local-update c t s.progress s.pc t claimed
              (λ a ne.
                Local-claim c t a s.progress (s.pc a)
                  (subst (λ (j : ℕ). Local c j s.progress a (s.pc a)) free (inv.local a))
                  (λ held. ne (inv.excl.alone a t held (ap holds h))))
              ((n, refl), not_rousing, not_waking);
        waits = inv.waits;
        result = inv.result;
        registered = λ _. simp ==-refl refl;
        roused = λ e. absurd (not_rousing e);
        woken = λ e. absurd (not_waking e);
      }

  pub Inv-test : (t : ℕ) → s.pc t ≡ testing → Inv c (td_has_join_thread t s)
  Inv-test t h = elim (Bool-cases (s.target.join_td == 0)) [
    | inl e ↦
        simp e
          (Inv-goto t claiming testing h (λ x. cc) refl (λ x. x) (at_pc t testing h, ground arith))
    | inr e ↦ simp e (Inv-goto t refusing testing h (λ x. cc) refl (λ x. x) (at_pc t testing h))
  ]

  pub Inv-check : (t : ℕ) → s.pc t ≡ checking → Inv c (check_joined t s)
  Inv-check t h = elim (Bool-cases s.target.joined) [
    | inl e ↦ simp e (Inv-goto t refused checking h (λ x. cc) refl (λ x. x) (at_pc t checking h))
    | inr e ↦ simp e (Inv-goto t locking checking h (λ x. cc) refl (λ x. x) (at_pc t checking h))
  ]

  pub Inv-over : (t : ℕ) → s.pc t ≡ claimed → Inv c (td_is_over (c.many_many t) t s)
  Inv-over t h =
      let (mine, nr, nw) = at_pc t claimed h in
      elim inv.waits [
        | inl (o, e) ↦ simp e (
            Inv-goto t finishing claimed h (λ x. cc) refl (λ x. refl)
              (
                mine,
                is_over-gone c.target_many_many s.progress o nr nw
                    (λ th. cc ((inv.idle th).1 t, ap holds h)),
              ))
        | inr (o, e) ↦
            let e' : (c.word == 0) ≡ false = ground arith in
            elim (Bool-cases (c.many_many t)) [
              | inl mm ↦
                  simp (e, e', mm)
                    (Inv-goto t switching claimed h (λ x. cc) refl (λ x. refl)
                      (mine, mm, λ tm. rw (← tm) o))
              | inr mm ↦
                  simp (e, e', mm)
                    (Inv-goto t unlocking claimed h (λ x. cc) refl (λ x. refl) (mine, mm))
            ]
      ]

  pub Inv-wait : (t : ℕ) → s.pc t ≡ waiting → Inv c (futex_wait c.word t s)
  Inv-wait t h =
      let (mine, kind) = at_pc t waiting h in
      elim inv.waits [
        | inl (o, e) ↦
            let e' : (0 == c.word) ≡ false = ground arith in
            simp (e, e')
              (Inv-goto t fetching waiting h (λ x. cc) refl (λ x. refl)
                (mine, (λ n. o), λ mm. absurd (cc (mm, kind))))
        | inr (o, e) ↦
            simp (e, ==-refl)
              (Inv-goto t asleep waiting h (λ x. cc) refl (λ x. refl)
                (mine, kind, λ g. absurd (cc (ap (is_over c.target_many_many) g, o))))
      ]

  pub Inv-spin : (t : ℕ) → s.pc t ≡ spinning → Inv c (spin_round t s)
  Inv-spin t h =
      let (mine, up) = at_pc t spinning h in
      elim inv.waits [
        | inl (o, e) ↦ simp e (
            Inv-goto t fetching spinning h (λ x. cc) refl (λ x. refl)
              (mine, (λ n. o), λ mm. launched-is_over c.target_many_many s.progress up o))
        | inr (o, e) ↦
            let e' : (c.word == 0) ≡ false = ground arith in
            simp (e, e') (Inv-goto t spinning spinning h (λ x. cc) refl (λ x. x) (mine, up))
      ]

  -- A signal: the joiner goes on before the target's end.
  pub Inv-interrupt : (t : ℕ) → c.signals ≡ true → s.pc t ≡ asleep → Inv c (goto t fetching s)
  Inv-interrupt t noisy h =
      let (mine, kind, up) = at_pc t asleep h in
      Inv-goto t fetching asleep h (λ x. cc) refl (λ x. refl)
        (mine, (λ n. absurd (cc (n, noisy))), λ mm. absurd (cc (mm, kind)))

  pub Inv-fetch : (t : ℕ) → s.pc t ≡ fetching → Inv c (goto t (marking s.target.ret) s)
  Inv-fetch t h =
      let (mine, o, g) = at_pc t fetching h in
      Inv-goto t (marking s.target.ret) fetching h (λ x. cc) refl (λ x. refl)
        ((mine, o, g), λ n. inv.result (λ e. cc (ap (is_over c.target_many_many) e, o n)))

  pub Inv-mark : (t ret : ℕ) → s.pc t ≡ marking ret → Inv c (mark_joined t ret s)
  Inv-mark t ret h =
      let moved =
        Inv-goto t (returned ret) (marking ret) h (λ x. cc) refl (λ x. refl)
          (at_pc t (marking ret) h) in
      record {
        excl = moved.excl;
        idle = moved.idle;
        local = moved.local;
        waits = moved.waits;
        result = moved.result;
        registered = moved.registered;
        roused = moved.roused;
        woken = moved.woken;
      }
