-- ===== src/Hybrid/Join/Once.antt =====
-- What the joiners of a target of either type may count on, however the steps interleave.
use libthreads_c.Base.{ℕ, ◌≡◌, ◌≢◌, ◌∙◌, refl, sym, ap, true, false, inl, inr}
use libthreads_c.Hybrid.Join.{
  checking, refusing, refused, unlocking, waiting, asleep, switching, parked, finishing, fetching,
  returned, rousing, gone, System, Setup, created, Step, call_join, join_check, join_lock,
  join_test, join_refuse, join_claim, join_over, join_unlock, join_wait, join_interrupt,
  join_switch, join_spin, join_finish, join_fetch, join_mark, exit_ret, exit_state, exit_lock,
  exit_test, exit_enqueue, exit_wake, exit_alone, post_over, post_test, post_wake, post_alone,
  Later, here, next,
}
use libthreads_c.Hybrid.Join.Facts.{is_over, Inv}
use libthreads_c.Hybrid.Join.Steps.{
  at_pc, Inv-goto, Inv-unlock, Inv-lock, Inv-claim, Inv-test, Inv-check, Inv-over, Inv-wait,
  Inv-spin, Inv-interrupt, Inv-fetch, Inv-mark,
}
use libthreads_c.Hybrid.Join.Ends.{
  Inv-ret, Inv-state, Inv-exit_td_lock, Inv-test_exit, Inv-set_over,
}
use libthreads_c.Hybrid.Join.Posts.{
  Inv-post, Inv-enqueue, Inv-exit_wake, Inv-exit_alone, Inv-post_wake, Inv-post_alone,
}

Inv-Step : {c : Setup} → c.word ≢ 0 → (s g : System) → Inv c s → Step c s g → Inv c g
Inv-Step nz s _ inv (call_join t n h) = Inv-goto nz s inv t checking _ h (λ x. cc) refl (λ x. cc) n
Inv-Step nz s _ inv (join_check t h) = Inv-check nz s inv t h
Inv-Step nz s _ inv (join_lock t h) = Inv-lock nz s inv t h
Inv-Step nz s _ inv (join_test t h) = Inv-test nz s inv t h
Inv-Step nz s _ inv (join_refuse t h) =
    Inv-unlock nz s inv t refused refusing h (λ x. cc) refl refl (λ x. x)
      (at_pc nz s inv t refusing h)
Inv-Step nz s _ inv (join_claim t h) = Inv-claim nz s inv t h
Inv-Step nz s _ inv (join_over t h) = Inv-over nz s inv t h
Inv-Step nz s _ inv (join_unlock t h) =
    Inv-unlock nz s inv t waiting unlocking h (λ x. cc) refl refl (λ x. x)
      (at_pc nz s inv t unlocking h)
Inv-Step nz s _ inv (join_wait t h) = Inv-wait nz s inv t h
Inv-Step nz s _ inv (join_interrupt t noisy h) = Inv-interrupt nz s inv t noisy h
Inv-Step nz s _ inv (join_switch t h) =
    let (mine, kind, early) = at_pc nz s inv t switching h in
    Inv-unlock nz s inv t parked switching h (λ x. cc) refl refl (λ x. x)
      (
        mine,
        kind,
        λ tm. (λ g. cc (ap (is_over true) g, early tm), λ g. cc (ap (is_over true) g, early tm)),
      )
Inv-Step nz s _ inv (join_spin t h) = Inv-spin nz s inv t h
Inv-Step nz s _ inv (join_finish t h) =
    let (mine, g) = at_pc nz s inv t finishing h in
    Inv-unlock nz s inv t fetching finishing h (λ x. cc) refl refl (λ x. x)
      (mine, (λ n. ap (is_over _) g), λ _. g)
Inv-Step nz s _ inv (join_fetch t h) = Inv-fetch nz s inv t h
Inv-Step nz s _ inv (join_mark t ret h) = Inv-mark nz s inv t ret h
Inv-Step nz s _ inv (exit_ret h) = Inv-ret nz s inv h
Inv-Step nz s _ inv (exit_state h) = Inv-state nz s inv h
Inv-Step nz s _ inv (exit_lock h) = Inv-exit_td_lock nz s inv h
Inv-Step nz s _ inv (exit_test one h) = Inv-test_exit nz s inv one h
Inv-Step nz s _ inv (exit_enqueue h) = Inv-enqueue nz s inv h
Inv-Step nz s _ inv (exit_wake u one h sleeper) = Inv-exit_wake nz s inv u one h sleeper
Inv-Step nz s _ inv (exit_alone one h nobody) = Inv-exit_alone nz s inv one h nobody
Inv-Step nz s _ inv (post_over many h) = Inv-set_over nz s inv h
Inv-Step nz s _ inv (post_test many h) = Inv-post nz s inv many h
Inv-Step nz s _ inv (post_wake u h sleeper) = Inv-post_wake nz s inv u h sleeper
Inv-Step nz s _ inv (post_alone h nobody) = Inv-post_alone nz s inv h nobody

Inv-Later :
    {c : Setup} (ret : ℕ) → c.word ≢ 0 → (s : System) → Later c (created c.word ret) s → Inv c s
Inv-Later ret nz _ here = record {
  excl = record { word = inr refl; free = λ e t. refl; alone = λ t u h h'. cc };
  idle = λ th. cc;
  local = λ t. tt;
  waits = inr (refl, refl);
  result = λ up. absurd (up refl);
  registered = λ n. absurd (n refl);
  roused = λ e. cc;
  woken = λ e. cc;
}
Inv-Later ret nz _ (next g f l step) = Inv-Step nz g f (Inv-Later ret nz g l) step

module _ (c : Setup) (ret : ℕ) (s : System) (nz : c.word ≢ 0)
    (l : Later c (created c.word ret) s) where
  inv : Inv c s
  inv = Inv-Later ret nz s l

  -- Where no signal interrupts a wait in the kernel: however the joiners, of either type, and the target, of
  -- either type, interleave, a join that returns success returns the value that the target exited with, after
  -- the target has cleared its wait word, and no other join of it returns success.
  pub joins_get_result :
      c.signals ≡ false
      → (t v u v' : ℕ) → s.pc t ≡ returned v
      → s.pc u ≡ returned v'
      → (v ≡ c.value) × (s.target.wait ≡ 0) × (u ≡ t)
  joins_get_result quiet t v u v' h h' =
      let (((n, mine), o, g), e) = at_pc nz s inv t (returned v) h in
      let (((n', mine'), o', g'), e') = at_pc nz s inv u (returned v') h' in
      (
        e quiet,
        elim inv.waits [ inl (x, w) ↦ w | inr (x, w) ↦ absurd (cc (o quiet, x)) ],
        sym mine' ∙ mine,
      )

  -- When a thread is about to be put on the ready list because the thread that it joins has ended, it is a
  -- many-many thread whose context the dispatcher has saved.
  pub ready_once_saved :
      s.progress ≡ rousing
      → (s.pc s.target.join_td ≡ parked) × (c.many_many s.target.join_td ≡ true)
  ready_once_saved h = inv.roused h

  -- Once a many-many target has ended and its dispatcher has told its joiner, no joiner sleeps in the kernel,
  -- is parked until it is made ready, or is on its way there.
  pub nobody_left :
      (t : ℕ)
      → c.target_many_many ≡ true
      → s.progress ≡ gone
      → (s.pc t ≢ asleep) × (s.pc t ≢ parked) × (s.pc t ≢ switching)
  nobody_left t many g = (
    λ h. let (mine, kind, up) = at_pc nz s inv t asleep h in up g,
    λ h. let (mine, kind, up) = at_pc nz s inv t parked h in (up many).0 g,
    λ h. let (mine, kind, up) = at_pc nz s inv t switching h in cc (up many, ap (is_over true) g),
  )
