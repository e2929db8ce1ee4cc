-- ===== src/Hybrid/Join/Posts.antt =====
-- The steps of the dispatcher and of the kernel, after the target's end, keep what holds of it.
use libthreads_c.Base.{
  ℕ, ◌≡◌, ◌≢◌, ◌∙◌, refl, sym, ap, true, false, inl, inr, Bool-cases, ==-refl, update, update-cases,
  arith, ◌==◌,
}
use libthreads_c.Hybrid.Join.{
  Pc, asleep, switching, parked, spinning, fetching, Progress, works, over, rousing, waking, quits,
  gone, System, Setup, goto, clear_tid, post_joined, enqueue_joiner, finished,
}
use libthreads_c.Hybrid.Join.Facts.{
  holds, target_holds, registered_at, is_over, launched, Local, Mine, Inv, Keeps, Local-update,
  Local-progress, Excl-move,
}
use libthreads_c.Hybrid.Join.Steps.{at_pc}
use libthreads_c.Hybrid.Join.Ends.{
  Word, not_over, cleared, stays, none, zero_l, waits_parked, told, let_go,
}

module _ {c : Setup} (nz : c.word ≢ 0) (s : System) (inv : Inv c s) where
  -- Who sleeps, is parked or switches is the registered thread, and its type is known.
  asleep_is : (a : ℕ) → s.pc a ≡ asleep → Mine c s.target.join_td s.progress a
  asleep_is a h = (at_pc nz s inv a asleep h).0

  parked_is : (a : ℕ) → s.pc a ≡ parked → Mine c s.target.join_td s.progress a
  parked_is a h = (at_pc nz s inv a parked h).0

  pub Inv-post : c.target_many_many ≡ true → s.progress ≡ over → Inv c (post_joined c.many_many s)
  Inv-post many h =
      let th : target_holds s.progress ≡ true = ap target_holds h in
      let on : s.progress ≢ works = λ e. cc (e, h) in
      let word : s.target.wait ≡ 0 = cleared nz s inv over h refl in
      elim (Bool-cases (s.target.join_td == 0)) [
        | inl e ↦
            let nobody : s.target.join_td ≡ 0 = ground arith in
            simp (e, zero_l nz s inv th)
              (let_go nz s inv th gone
                (λ a. record {
                  over_stays = λ _. refl;
                  launched_stays = λ _. refl;
                  gone_stays = λ _. refl;
                  sleeps = λ x. let (n, r) = asleep_is a x in absurd (n (sym r ∙ nobody));
                  claims = λ _. (λ x. cc, λ x. cc);
                  switches = λ x. absurd (cc (ap holds x, none nz s inv th a));
                  parks = λ x. let (n, r) = parked_is a x in absurd (n (sym r ∙ nobody));
                })
                refl (inl (refl, word)) on (λ x. cc) (λ x. cc))
        | inr e ↦ elim (Bool-cases (c.many_many s.target.join_td)) [
          | inl mm ↦
              simp (e, mm, zero_l nz s inv th)
                (let_go nz s inv th rousing
                  (λ a.
                    told nz s inv th rousing a (λ x. cc) (λ _. many) (λ _ _. (λ x. cc, λ x. cc)))
                  refl (inl (many, word)) on (λ _. (waits_parked nz s inv th e mm, mm)) (λ x. cc))
          | inr mm ↦
              simp (e, mm, zero_l nz s inv th)
                (let_go nz s inv th waking
                  (λ a.
                    told nz s inv th waking a (λ x. cc) (λ _. refl)
                      λ x _.
                        let ((n, r), m, _) = at_pc nz s inv a parked x in
                        absurd (cc (ap c.many_many r, m, mm)))
                  refl (inl (refl, word)) on (λ x. cc) (λ _. (λ z. cc (z, e, ==-refl 0), mm)))
        ]
      ]

  -- The joiner `j` goes on at `p`, when the target comes to `r`.
  goes_on :
      (j : ℕ) (p : Pc) (r : Progress)
      → holds p ≡ holds (s.pc j)
      → registered_at p ≡ true
      → target_holds r ≡ false
      → r ≢ rousing
      → r ≢ waking
      → ((a : ℕ) → a ≢ j → Keeps c s.progress r (s.pc a))
      → Local c s.target.join_td r j p
      → s.progress ≢ works
      → (wait : ℕ) → Word nz s inv r wait
      → Inv c (record s {
        target = record s.target { wait = wait };
        progress = r;
        pc = update s.pc j p;
      })
  goes_on j p r eq reg quiet nr nw keeps l on wait word = record {
    excl = Excl-move s.pc j p inv.excl eq;
    idle = λ x. absurd (cc (x, quiet));
    local =
        Local-update c s.target.join_td r s.pc j p
          (λ a n.
            Local-progress c s.target.join_td a s.progress r (s.pc a) (inv.local a) (keeps a n))
          l;
    waits = word;
    result = λ _. inv.result on;
    registered = λ n. elim (update-cases s.pc j s.target.join_td p) [
      | inl (e, e') ↦ ap registered_at e' ∙ reg
      | inr (e, e') ↦ ap registered_at e' ∙ inv.registered n
    ];
    roused = λ x. absurd (nr x);
    woken = λ x. absurd (nw x);
  }

  -- The target is gone, and no joiner moves.
  ended :
      ((a : ℕ) → Keeps c s.progress gone (s.pc a))
      → s.progress ≢ works
      → (wait : ℕ) → wait ≡ 0
      → Inv c (record s { target = record s.target { wait = wait }; progress = gone })
  ended keeps on wait word = record {
    excl = inv.excl;
    idle = λ x. cc;
    local = stays nz s inv gone keeps;
    waits = inl (refl, word);
    result = λ _. inv.result on;
    registered = inv.registered;
    roused = λ x. cc;
    woken = λ x. cc;
  }

  -- What the last step leaves to a joiner at `p`, who neither sleeps nor, if the target is many-many, is
  -- parked or switching.
  last-Keeps :
      (p : Pc)
      → (p ≡ asleep → ⊥)
      → (p ≡ switching → c.target_many_many ≡ true → ⊥)
      → (p ≡ parked → c.target_many_many ≡ true → ⊥)
      → Keeps c s.progress gone p
  last-Keeps p awake here' ready = record {
    over_stays = λ _. refl;
    launched_stays = λ _. refl;
    gone_stays = λ _. refl;
    sleeps = λ x. absurd (awake x);
    claims = λ _. (λ x. cc, λ x. cc);
    switches = λ x y. absurd (here' x y);
    parks = λ x y. absurd (ready x y);
  }

  pub Inv-enqueue : s.progress ≡ rousing → Inv c (enqueue_joiner c.target_many_many s)
  Inv-enqueue h =
      let (at, mm) = inv.roused h in
      let mine = parked_is s.target.join_td at in
      let on : s.progress ≢ works = λ e. cc (e, h) in
      let same : (a : ℕ) → s.target.join_td ≡ a → a ≢ s.target.join_td → ⊥ = λ a r ne. ne (sym r) in
      elim (Bool-cases c.target_many_many) [
        | inl tm ↦ simp tm (
            goes_on s.target.join_td fetching gone (sym (ap holds at)) refl refl (λ x. cc) (λ x. cc)
              (λ a ne.
                last-Keeps (s.pc a) (λ x. same a (asleep_is a x).1 ne)
                  (λ x _. same a (at_pc nz s inv a switching x).0.1 ne)
                  (λ x _. same a (parked_is a x).1 ne))
              (mine, (λ _. refl), λ _. refl) on s.target.wait
              (inl (refl, cleared nz s inv rousing h tm)))
        | inr tm ↦ simp tm (
            goes_on s.target.join_td spinning quits (sym (ap holds at)) refl refl (λ x. cc)
              (λ x. cc)
              (λ a ne. record {
                over_stays = λ x. absurd (cc (x, ap (is_over c.target_many_many) h, tm));
                launched_stays = λ x. absurd (cc (x, ap launched h));
                gone_stays = λ x. absurd (cc (x, h));
                sleeps = λ _ x. cc;
                claims = λ _. (λ x. cc, λ x. cc);
                switches = λ _ _. refl;
                parks = λ _ _. (λ x. cc, λ x. cc);
              })
              (mine, refl) on s.target.wait (inr (refl, not_over nz s inv rousing h tm)))
      ]

  pub Inv-exit_wake :
      (u : ℕ)
      → c.target_many_many ≡ false
      → s.progress ≡ quits
      → s.pc u ≡ asleep
      → Inv c (goto u fetching (clear_tid s))
  Inv-exit_wake u one h sleeper =
      let mine = asleep_is u sleeper in
      goes_on u fetching gone (sym (ap holds sleeper)) refl refl (λ x. cc) (λ x. cc)
        (λ a ne.
          last-Keeps (s.pc a) (λ x. ne (sym (asleep_is a x).1 ∙ mine.1)) (λ _ x. cc (x, one))
            (λ _ x. cc (x, one)))
        (mine, (λ _. refl), λ _. refl) (λ e. cc (e, h)) 0 (inl (refl, refl))

  pub Inv-exit_alone :
      c.target_many_many ≡ false
      → s.progress ≡ quits
      → ((u : ℕ) → s.pc u ≢ asleep)
      → Inv c (clear_tid s)
  Inv-exit_alone one h nobody =
      ended (λ a. last-Keeps (s.pc a) (nobody a) (λ _ x. cc (x, one)) (λ _ x. cc (x, one)))
        (λ e. cc (e, h)) 0 refl

  -- A many-many target with a one-one joiner: nobody is parked or on the way to it.
  not_switching : s.progress ≡ waking → (a : ℕ) → s.pc a ≡ switching → c.target_many_many ≡ true → ⊥
  not_switching h a x tm =
      let (m, kind, early) = at_pc nz s inv a switching x in cc (early tm, ap (is_over true) h)

  not_parked : s.progress ≡ waking → (a : ℕ) → s.pc a ≡ parked → c.target_many_many ≡ true → ⊥
  not_parked h a x tm =
      let (m, kind, waits) = at_pc nz s inv a parked x in
      let (not_gone, not_waking) = waits tm in not_waking h

  pub Inv-post_wake :
      (u : ℕ) → s.progress ≡ waking → s.pc u ≡ asleep → Inv c (goto u fetching (finished s))
  Inv-post_wake u h sleeper =
      let mine = asleep_is u sleeper in
      goes_on u fetching gone (sym (ap holds sleeper)) refl refl (λ x. cc) (λ x. cc)
        (λ a ne.
          last-Keeps (s.pc a) (λ x. ne (sym (asleep_is a x).1 ∙ mine.1)) (not_switching h a)
            (not_parked h a))
        (mine, (λ _. refl), λ _. refl) (λ e. cc (e, h)) s.target.wait
        (inl (refl, cleared nz s inv waking h refl))

  pub Inv-post_alone : s.progress ≡ waking → ((u : ℕ) → s.pc u ≢ asleep) → Inv c (finished s)
  Inv-post_alone h nobody =
      ended (λ a. last-Keeps (s.pc a) (nobody a) (not_switching h a) (not_parked h a))
        (λ e. cc (e, h)) s.target.wait (cleared nz s inv waking h refl)
