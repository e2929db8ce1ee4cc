-- ===== src/Hybrid/Join/Ends.antt =====
-- The steps of the target and of the dispatcher keep what holds of a target and its joiners.
use libthreads_c.Base.{
  ℕ, ◌≡◌, ◌≢◌, ◌∙◌, refl, sym, ap, true, false, ◌⊎◌, inl, inr, Bool-cases, arith, ◌==◌,
}
use libthreads_c.Hybrid.Join.{
  Pc, parked, Progress, works, stored, leaves, locked, over, rousing, waking, quits, gone, System,
  Setup, store_ret, store_exited, exit_td_lock, exit_joined, set_over,
}
use libthreads_c.Hybrid.Join.Facts.{
  holds, target_holds, is_over, launched, Local, Inv, Keeps, Local-progress, parked-at,
  not_launched, Excl,
}

-- Between two moments of the target at which nobody is told anything.
Keeps-early :
    (c : Setup) (q r : Progress) (p : Pc)
    → is_over c.target_many_many q ≡ false
    → launched q ≡ false
    → q ≢ gone
    → r ≢ gone
    → r ≢ rousing
    → r ≢ waking
    → is_over true r ≡ false
    → Keeps c q r p
Keeps-early c q r p o l g rg rr rw' ro = record {
  over_stays = λ e. absurd (cc (e, o));
  launched_stays = λ e. absurd (cc (e, l));
  gone_stays = λ e. absurd (g e);
  sleeps = λ _. rg;
  claims = λ _. (rr, rw');
  switches = λ _ _. ro;
  parks = λ _ _. (rg, rw');
}

module _ {c : Setup} (nz : c.word ≢ 0) (s : System) (inv : Inv c s) where
  abbrev pub Word : Progress → ℕ → Type 0
  Word q wait =
      ((is_over c.target_many_many q ≡ true) × (wait ≡ 0))
      ⊎ ((is_over c.target_many_many q ≡ false) × (wait ≡ c.word))

  pub not_over :
      (q : Progress)
      → s.progress ≡ q
      → is_over c.target_many_many q ≡ false
      → s.target.wait ≡ c.word
  not_over q h o = elim inv.waits [
    | inl (o', e) ↦ absurd (cc (o', ap (is_over c.target_many_many) h, o))
    | inr (o', e) ↦ e
  ]

  pub cleared :
      (q : Progress) → s.progress ≡ q → is_over c.target_many_many q ≡ true → s.target.wait ≡ 0
  cleared q h o = elim inv.waits [
    | inl (o', e) ↦ e
    | inr (o', e) ↦ absurd (cc (o', ap (is_over c.target_many_many) h, o))
  ]

  pub stays :
      (r : Progress)
      → ((a : ℕ) → Keeps c s.progress r (s.pc a))
      → (a : ℕ) → Local c s.target.join_td r a (s.pc a)
  stays r keeps a =
      Local-progress c s.target.join_td a s.progress r (s.pc a) (inv.local a) (keeps a)

  early :
      (q r : Progress)
      → s.progress ≡ q
      → is_over c.target_many_many q ≡ false
      → launched q ≡ false
      → q ≢ gone
      → r ≢ gone
      → r ≢ rousing
      → r ≢ waking
      → is_over true r ≡ false
      → (a : ℕ) → Local c s.target.join_td r a (s.pc a)
  early q r h o l g rg rr rw' ro = stays r λ a.
      Keeps-early c s.progress r (s.pc a) (ap (is_over c.target_many_many) h ∙ o)
        (ap launched h ∙ l) (λ e. g (sym h ∙ e)) rg rr rw' ro

  pub Inv-ret : s.progress ≡ works → Inv c (store_ret c.value s)
  Inv-ret h = record {
    excl = inv.excl;
    idle = λ th. cc;
    local = early works stored h refl refl (λ e. cc) (λ e. cc) (λ e. cc) (λ e. cc) refl;
    waits = inr (refl, not_over works h refl);
    result = λ _. refl;
    registered = inv.registered;
    roused = λ e. cc;
    woken = λ e. cc;
  }

  pub Inv-state : s.progress ≡ stored → Inv c (store_exited s)
  Inv-state h = record {
    excl = inv.excl;
    idle = λ th. cc;
    local = early stored leaves h refl refl (λ e. cc) (λ e. cc) (λ e. cc) (λ e. cc) refl;
    waits = inr (refl, not_over stored h refl);
    result = λ _. inv.result (λ e. cc (e, h));
    registered = inv.registered;
    roused = λ e. cc;
    woken = λ e. cc;
  }

  pub Inv-exit_td_lock : s.progress ≡ leaves → Inv c (exit_td_lock s)
  Inv-exit_td_lock h = elim inv.excl.word [
    | inl e ↦
        let e' : (s.target.mem_lock == 1) ≡ false = ground arith in
        simp e' (record {
          excl = inv.excl;
          idle = λ th. cc;
          local = early leaves leaves h refl refl (λ x. cc) (λ x. cc) (λ x. cc) (λ x. cc) refl;
          waits = inr (refl, not_over leaves h refl);
          result = λ _. inv.result (λ x. cc (x, h));
          registered = inv.registered;
          roused = λ x. cc;
          woken = λ x. cc;
        })
    | inr e ↦
        let e' : (s.target.mem_lock == 1) ≡ true = ground arith in
        simp e' (record {
          excl = record {
            word = inl refl;
            free = λ x a. absurd (omega arith);
            alone = inv.excl.alone;
          };
          idle = λ th. (refl, inv.excl.free e);
          local = early leaves locked h refl refl (λ x. cc) (λ x. cc) (λ x. cc) (λ x. cc) refl;
          waits = inr (refl, not_over leaves h refl);
          result = λ _. inv.result (λ x. cc (x, h));
          registered = inv.registered;
          roused = λ x. cc;
          woken = λ x. cc;
        })
  ]

  -- While the target or its dispatcher holds the lock.
  module _ (th : target_holds s.progress ≡ true) where
    pub none : (a : ℕ) → holds (s.pc a) ≡ false
    none = (inv.idle th).1

    pub zero_l : s.target.mem_lock ≡ 0
    zero_l = (inv.idle th).0

    released : Excl holds 1 s.pc
    released = record {
      word = inr refl;
      free = λ e a. none a;
      alone = λ a b x y. absurd (cc (x, none a));
    }

    pub waits_parked :
        (s.target.join_td == 0) ≡ false
        → c.many_many s.target.join_td ≡ true
        → s.pc s.target.join_td ≡ parked
    waits_parked n mm =
        parked-at c s.target.join_td s.progress (s.pc s.target.join_td) (inv.local s.target.join_td)
          (inv.registered (ground arith)) (none s.target.join_td) mm th

    -- What the step to `r`, which tells the joiner, leaves to who does not hold the lock.
    pub told :
        (r : Progress) (a : ℕ)
        → r ≢ gone
        → (is_over c.target_many_many s.progress ≡ true → is_over c.target_many_many r ≡ true)
        → (s.pc a ≡ parked → c.target_many_many ≡ true → (r ≢ gone) × (r ≢ waking))
        → Keeps c s.progress r (s.pc a)
    told r a more stays' parks' = record {
      over_stays = stays';
      launched_stays = λ x. absurd (not_launched s.progress x th);
      gone_stays = λ x. absurd (cc (ap target_holds x, th));
      sleeps = λ _. more;
      claims = λ x. absurd (cc (ap holds x, none a));
      switches = λ x. absurd (cc (ap holds x, none a));
      parks = parks';
    }

    -- The next moment `r` with the lock released.
    pub let_go :
        (r : Progress)
        → ((a : ℕ) → Keeps c s.progress r (s.pc a))
        → target_holds r ≡ false
        → Word r s.target.wait
        → s.progress ≢ works
        → (r ≡ rousing → (s.pc s.target.join_td ≡ parked) × (c.many_many s.target.join_td ≡ true))
        → (r ≡ waking → (s.target.join_td ≢ 0) × (c.many_many s.target.join_td ≡ false))
        → Inv c (record s { target = record s.target { mem_lock = 1 }; progress = r })
    let_go r keeps quiet word on roused woken = record {
      excl = released;
      idle = λ x. absurd (cc (x, quiet));
      local = stays r keeps;
      waits = word;
      result = λ _. inv.result on;
      registered = inv.registered;
      roused = roused;
      woken = woken;
    }

  pub Inv-test_exit :
      c.target_many_many ≡ false → s.progress ≡ locked → Inv c (exit_joined c.many_many s)
  Inv-test_exit one h =
      let th : target_holds s.progress ≡ true = ap target_holds h in
      let on : s.progress ≢ works = λ e. cc (e, h) in
      let word : s.target.wait ≡ c.word = not_over locked h refl in
      let quitting : (a : ℕ) → Keeps c s.progress quits (s.pc a) = λ a.
        Keeps-early c s.progress quits (s.pc a) (ap (is_over c.target_many_many) h) (ap launched h)
          (λ e. cc (e, h)) (λ e. cc) (λ e. cc) (λ e. cc) refl in
      elim (Bool-cases (s.target.join_td == 0)) [
        | inl e ↦
            simp (e, zero_l th)
              (let_go th quits quitting refl (inr (refl, word)) on (λ x. cc) (λ x. cc))
        | inr e ↦ elim (Bool-cases (c.many_many s.target.join_td)) [
          | inl mm ↦
              simp (e, mm, zero_l th)
                (let_go th rousing
                  (λ a.
                    told th rousing a (λ x. cc)
                      (λ x. absurd (cc (x, ap (is_over c.target_many_many) h)))
                      (λ _ _. (λ x. cc, λ x. cc)))
                  refl (inr (one, word)) on (λ _. (waits_parked th e mm, mm)) (λ x. cc))
          | inr mm ↦
              simp (e, mm)
                (record {
                  excl = inv.excl;
                  idle = λ x. cc;
                  local = stays quits quitting;
                  waits = inr (refl, word);
                  result = λ _. inv.result on;
                  registered = inv.registered;
                  roused = λ x. cc;
                  woken = λ x. cc;
                })
        ]
      ]

  pub Inv-set_over : s.progress ≡ locked → Inv c (set_over s)
  Inv-set_over h =
      let th : target_holds s.progress ≡ true = ap target_holds h in
      record {
        excl = inv.excl;
        idle = λ _. inv.idle th;
        local = stays over λ a. record {
          over_stays = λ _. refl;
          launched_stays = λ x. absurd (cc (x, ap launched h));
          gone_stays = λ x. absurd (cc (x, h));
          sleeps = λ _ x. cc;
          claims = λ _. (λ x. cc, λ x. cc);
          switches = λ x. absurd (cc (ap holds x, none th a));
          parks = λ _ _. (λ x. cc, λ x. cc);
        };
        waits = inl (refl, refl);
        result = λ _. inv.result (λ e. cc (e, h));
        registered = inv.registered;
        roused = λ x. cc;
        woken = λ x. cc;
      }
