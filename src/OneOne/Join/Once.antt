-- ===== src/OneOne/Join/Once.antt =====
-- A target is joined once, after its end, with its result.
use libthreads_c.Base.{
  ℕ, ◌≡◌, ◌≢◌, ◌∙◌, refl, sym, ap, subst, true, false, inl, inr, Bool-cases, ==-refl, update, arith,
  ◌==◌,
}
use libthreads_c.OneOne.Join.{
  is_joined, Pc, checking, locking, testing, refusing, refused, claiming, claimed, unlocking,
  waiting, asleep, finishing, marking, fetching, freeing, returned, works, stored, leaves, gone,
  System, goto, check_joined, td_lock, td_has_join_thread, td_set_join_thread, td_is_over,
  td_unlock, futex_wait, clear_tid, Step, call_join, join_check, join_lock, join_test, join_refuse,
  join_claim, join_over, join_unlock, join_wait, join_interrupt, join_finish, join_mark, join_fetch,
  join_free, exit_ret, exit_state, exit_wake, exit_alone, Reachable, start, next,
}
use libthreads_c.OneOne.Join.Facts.{
  holds, Local, Excl, Inv, Local-update, Local-claim, Local-progress, Excl-move, Excl-acquire,
  Excl-release,
}

module _ {ktid value : ℕ} (nz : ktid ≢ 0) (s : System) (inv : Inv ktid value s) where
  here : (t : ℕ) (p : Pc) → s.pc t ≡ p → Local value s.target.join_td s.progress t p
  here t p e = subst (λ (q : Pc). Local value s.target.join_td s.progress t q) e (inv.local t)

  -- A move of `t` alone.
  Inv-goto :
      (t : ℕ) (p : Pc)
      → holds p ≡ holds (s.pc t)
      → Local value s.target.join_td s.progress t p
      → Inv ktid value (goto t p s)
  Inv-goto t p eq l = record {
    excl = Excl-move s.pc t p inv.excl eq;
    local = Local-update value s.target.join_td s.progress s.pc t p (λ a n. inv.local a) l;
    waits = inv.waits;
    result = inv.result;
    mapped = inv.mapped;
  }

  Inv-lock : (t : ℕ) → s.pc t ≡ locking → Inv ktid value (td_lock t s)
  Inv-lock t h = elim inv.excl.word [
    | inl e ↦
        let e' : (s.target.mem_lock == 1) ≡ false = ground arith in
        simp e' (Inv-goto t locking (sym (ap holds h)) (here t locking h))
    | inr e ↦
        let e' : (s.target.mem_lock == 1) ≡ true = ground arith in
        simp e' (record {
          excl = Excl-acquire s.pc t testing (subst (λ (l : ℕ). Excl holds l s.pc) e inv.excl);
          local =
              Local-update value s.target.join_td s.progress s.pc t testing (λ a n. inv.local a)
                (here t locking h);
          waits = inv.waits;
          result = inv.result;
          mapped = inv.mapped;
        })
  ]

  Inv-unlock :
      (t : ℕ) (p : Pc)
      → holds (s.pc t) ≡ true
      → holds p ≡ false
      → Local value s.target.join_td s.progress t p
      → Inv ktid value (td_unlock t p s)
  Inv-unlock t p held quiet l =
      let (zero_l, excl) = Excl-release s.pc t p inv.excl held quiet in
      simp zero_l (record {
        excl = excl;
        local = Local-update value s.target.join_td s.progress s.pc t p (λ a n. inv.local a) l;
        waits = inv.waits;
        result = inv.result;
        mapped = inv.mapped;
      })

  -- Nobody else is registered, and nobody else is about to be.
  Inv-claim : (t : ℕ) → s.pc t ≡ claiming → Inv ktid value (td_set_join_thread t s)
  Inv-claim t h =
      let (n, free) = here t claiming h in
      record {
        excl = Excl-move s.pc t claimed inv.excl (sym (ap holds h));
        local =
            Local-update value t s.progress s.pc t claimed
              (λ a ne.
                Local-claim value t a s.progress (s.pc a)
                  (subst (λ (j : ℕ). Local value j s.progress a (s.pc a)) free (inv.local a))
                  (λ held. ne (inv.excl.alone a t held (ap holds h))))
              (n, refl);
        waits = inv.waits;
        result = inv.result;
        mapped = inv.mapped;
      }

  Inv-test : (t : ℕ) → s.pc t ≡ testing → Inv ktid value (td_has_join_thread t s)
  Inv-test t h = elim (Bool-cases (s.target.join_td == 0)) [
    | inl e ↦ simp e (Inv-goto t claiming (sym (ap holds h)) (here t testing h, ground arith))
    | inr e ↦ simp e (Inv-goto t refusing (sym (ap holds h)) (here t testing h))
  ]

  Inv-check : (t : ℕ) → s.pc t ≡ checking → Inv ktid value (check_joined t s)
  Inv-check t h = elim (Bool-cases (is_joined s.target.state)) [
    | inl e ↦ simp e (Inv-goto t refused (sym (ap holds h)) (here t checking h))
    | inr e ↦ simp e (Inv-goto t locking (sym (ap holds h)) (here t checking h))
  ]

  Inv-over : (t : ℕ) → s.pc t ≡ claimed → Inv ktid value (td_is_over t s)
  Inv-over t h =
      let (n, mine) = here t claimed h in
      elim inv.waits [
        | inl (g, e) ↦ simp e (Inv-goto t finishing (sym (ap holds h)) (n, mine, g))
        | inr (g, e) ↦
            let e' : (ktid == 0) ≡ false = ground arith in
            simp (e, e') (Inv-goto t unlocking (sym (ap holds h)) (n, mine))
      ]

  Inv-wait : (t : ℕ) → s.pc t ≡ waiting → Inv ktid value (futex_wait ktid t s)
  Inv-wait t h =
      let (n, mine) = here t waiting h in
      elim inv.waits [
        | inl (g, e) ↦
            let e' : (0 == ktid) ≡ false = ground arith in
            simp (e, e') (Inv-goto t marking (sym (ap holds h)) (n, mine, g))
        | inr (g, e) ↦ simp (e, ==-refl) (Inv-goto t asleep (sym (ap holds h)) (n, mine, g))
      ]

  -- The last move of the target; nobody sleeps after it.
  Inv-gone :
      s.progress ≢ gone
      → s.progress ≢ works
      → (pc : ℕ → Pc) → Excl holds s.target.mem_lock pc
      → ((a : ℕ) → Local value s.target.join_td gone a (pc a))
      → Inv ktid value (record (clear_tid s) { pc = pc })
  Inv-gone up on pc excl local = record {
    excl = excl;
    local = local;
    waits = inl (refl, refl);
    result = λ _. inv.result on;
    mapped = λ _. refl;
  }

Inv-step :
    {ktid value : ℕ}
    → ktid ≢ 0
    → (s g : System) → Inv ktid value s
    → Step false ktid value s g
    → Inv ktid value g
Inv-step nz s _ inv (call_join t n h) = Inv-goto nz s inv t checking (sym (ap holds h)) n
Inv-step nz s _ inv (join_check t h) = Inv-check nz s inv t h
Inv-step nz s _ inv (join_lock t h) = Inv-lock nz s inv t h
Inv-step nz s _ inv (join_test t h) = Inv-test nz s inv t h
Inv-step nz s _ inv (join_refuse t h) =
    Inv-unlock nz s inv t refused (ap holds h) refl (here nz s inv t refusing h)
Inv-step nz s _ inv (join_claim t h) = Inv-claim nz s inv t h
Inv-step nz s _ inv (join_over t h) = Inv-over nz s inv t h
Inv-step nz s _ inv (join_unlock t h) =
    Inv-unlock nz s inv t waiting (ap holds h) refl (here nz s inv t unlocking h)
Inv-step nz s _ inv (join_wait t h) = Inv-wait nz s inv t h
Inv-step nz s _ inv (join_interrupt t some_signal h) = cc
Inv-step nz s _ inv (join_finish t h) =
    Inv-unlock nz s inv t marking (ap holds h) refl (here nz s inv t finishing h)
Inv-step nz s _ inv (join_mark t h) =
    let moved = Inv-goto nz s inv t fetching (sym (ap holds h)) (here nz s inv t marking h) in
    record {
      excl = moved.excl;
      local = moved.local;
      waits = moved.waits;
      result = moved.result;
      mapped = moved.mapped;
    }
Inv-step nz s _ inv (join_fetch t h) =
    let (n, mine, g) = here nz s inv t fetching h in
    Inv-goto nz s inv t (freeing s.target.ret) (sym (ap holds h))
      (n, mine, g, inv.result (λ e. cc (e, g)))
Inv-step nz s _ inv (join_free t ret h) =
    let l = here nz s inv t (freeing ret) h in
    let moved = Inv-goto nz s inv t (returned ret) (sym (ap holds h)) l in
    let (n, mine, g, r) = l in
    record {
      excl = moved.excl;
      local = moved.local;
      waits = moved.waits;
      result = moved.result;
      mapped = λ _. g;
    }
Inv-step nz s _ inv (exit_ret h) = record {
  excl = inv.excl;
  local = λ a.
      Local-progress _ s.target.join_td a s.progress stored (s.pc a) (inv.local a) (λ e. cc (e, h))
        (λ _ e. cc);
  waits = elim inv.waits [ inl (g, e) ↦ absurd (cc (g, h)) | inr (g, e) ↦ inr (λ x. cc, e) ];
  result = λ _. refl;
  mapped = λ e. absurd (cc (inv.mapped e, h));
}
Inv-step nz s _ inv (exit_state h) = record {
  excl = inv.excl;
  local = λ a.
      Local-progress _ s.target.join_td a s.progress leaves (s.pc a) (inv.local a) (λ e. cc (e, h))
        (λ _ e. cc);
  waits = elim inv.waits [ inl (g, e) ↦ absurd (cc (g, h)) | inr (g, e) ↦ inr (λ x. cc, e) ];
  result = λ _. inv.result (λ e. cc (e, h));
  mapped = λ e. absurd (cc (inv.mapped e, h));
}
Inv-step nz s _ inv (exit_wake u h h') =
    let (n, mine, up) = here nz s inv u asleep h' in
    Inv-gone nz s inv up (λ e. cc (e, h)) (update s.pc u marking)
      (Excl-move s.pc u marking inv.excl (sym (ap holds h')))
      (Local-update _ s.target.join_td gone s.pc u marking
        (λ a ne.
          Local-progress _ s.target.join_td a s.progress gone (s.pc a) (inv.local a) up
            (λ e. let (_, other, _) = here nz s inv a asleep e in absurd (ne (sym other ∙ mine))))
        (n, mine, refl))
Inv-step nz s _ inv (exit_alone h none) =
    Inv-gone nz s inv (λ e. cc (e, h)) (λ e. cc (e, h)) s.pc inv.excl
      (λ a.
        Local-progress _ s.target.join_td a s.progress gone (s.pc a) (inv.local a) (λ e. cc (e, h))
          (λ e. absurd (none a e)))

pub Reachable-Inv :
    {ktid value ret : ℕ}
    → ktid ≢ 0
    → (s : System) → Reachable false ktid value ret s
    → Inv ktid value s
Reachable-Inv nz _ start = record {
  excl = record { word = inr refl; free = λ e t. refl; alone = λ t u h h'. cc };
  local = λ t. tt;
  waits = inr (λ e. cc, refl);
  result = λ up. absurd (up refl);
  mapped = λ e. cc;
}
Reachable-Inv nz _ (next s g r step) = Inv-step nz s g (Reachable-Inv nz s r) step

-- Where no signal interrupts a wait in the kernel: however the joiners and the target interleave, a join that
-- returns success does so with the value that the target exited with, after the target's kernel thread is gone,
-- and no other join of it returns success; the target's stack is mapped for as long as it runs.
pub joined_once :
    (ktid value ret : ℕ) (s : System)
    → ktid ≢ 0
    → Reachable false ktid value ret s
    → ((t v : ℕ)
        → s.pc t ≡ returned v
        → (v ≡ value) × (s.progress ≡ gone) × ((u v' : ℕ) → s.pc u ≡ returned v' → u ≡ t))
      × (s.progress ≢ gone → s.target.stack ≡ true)
joined_once ktid value ret s nz r =
    let inv = Reachable-Inv nz s r in
    (
      λ t v h.
          let (n, mine, g, e) = here nz s inv t (returned v) h in
          (
            e,
            g,
            λ u v' h'.
                let (n', mine', g', e') = here nz s inv u (returned v') h' in sym mine' ∙ mine,
          ),
      λ up. elim (Bool-cases s.target.stack) [ inl e ↦ e | inr e ↦ absurd (up (inv.mapped e)) ],
    )

-- No joiner sleeps on a target that is gone. A joiner that sleeps is registered in the target, whose
-- wait word still holds the kernel thread id, and it alone sleeps: the thread that the target's end wakes
-- can be no other.
pub sleeper_is_woken :
    (ktid value ret : ℕ) (s : System) (t : ℕ)
    → ktid ≢ 0
    → Reachable false ktid value ret s
    → s.pc t ≡ asleep
    → (s.progress ≢ gone)
      × (s.target.join_td ≡ t)
      × (s.target.wait ≡ ktid)
      × ((u : ℕ) → s.pc u ≡ asleep → u ≡ t)
sleeper_is_woken ktid value ret s t nz r h =
    let inv = Reachable-Inv nz s r in
    let (n, mine, up) = here nz s inv t asleep h in
    (
      up,
      mine,
      elim inv.waits [ inl (g, e) ↦ absurd (up g) | inr (g, e) ↦ e ],
      λ u h'. let (n', mine', up') = here nz s inv u asleep h' in sym mine' ∙ mine,
    )
