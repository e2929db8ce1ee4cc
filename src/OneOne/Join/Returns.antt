-- ===== src/OneOne/Join/Returns.antt =====
-- A joiner that sleeps can go on to its return.
use libthreads_c.Base.{ℕ, ◌≡◌, ◌≢◌, refl, false, ap, ==-refl, update_other}
use libthreads_c.OneOne.Join.{
  asleep, marking, fetching, freeing, returned, Progress, works, stored, leaves, gone, System, goto,
  mark_joined, td_get_ret, td_free, store_ret, store_exited, clear_tid, Step, join_mark, join_fetch,
  join_free, exit_ret, exit_state, exit_wake, Reachable,
}
use libthreads_c.OneOne.Join.Once.{Reachable-Inv, sleeper_is_woken}

-- The runs from one system to another in which no joiner but `t` moves.
pub data Runs (t ktid value : ℕ) : System → System → Type 0 where
  done : (s : System) → Runs t ktid value s s
  more :
      (s g f : System)
      → Step false ktid value s g
      → ((u : ℕ) → u ≢ t → g.pc u ≡ s.pc u)
      → Runs t ktid value g f
      → Runs t ktid value s f

abbrev pub CanReturn : ℕ → ℕ → ℕ → System → Type 0
CanReturn ktid value t s =
    (g : System) × Runs t ktid value s g × (g.pc t ≡ returned value) × (g.progress ≡ gone)

module _ (ktid value t : ℕ) where
  earlier :
      (s g : System)
      → Step false ktid value s g
      → ((u : ℕ) → u ≢ t → g.pc u ≡ s.pc u)
      → CanReturn ktid value t g
      → CanReturn ktid value t s
  earlier s g step same (f, runs, at, up) = (f, more s g f step same runs, at, up)

  from_leaves :
      (s : System)
      → s.progress ≡ leaves
      → s.pc t ≡ asleep
      → s.target.ret ≡ value
      → CanReturn ktid value t s
  from_leaves s h at ret =
      let s1 : System = goto t marking (clear_tid s) in
      let s2 : System = mark_joined t s1 in
      let s3 : System = td_get_ret t s2 in
      let s4 : System = td_free t s.target.ret s3 in
      (
        s4,
        more s s1 s4 (exit_wake t h at) (λ u n. update_other s.pc t u marking n)
            (more s1 s2 s4 (join_mark t (simp ==-refl refl))
              (λ u n. update_other s1.pc t u fetching n)
              (more s2 s3 s4 (join_fetch t (simp ==-refl refl))
                (λ u n. update_other s2.pc t u (freeing s.target.ret) n)
                (more s3 s4 s4 (join_free t s.target.ret (simp ==-refl refl))
                  (λ u n. update_other s3.pc t u (returned s.target.ret) n) (done s4)))),
        simp ==-refl (ap returned ret),
        refl,
      )

  from :
      (q : Progress) (s : System)
      → s.progress ≡ q
      → s.progress ≢ gone
      → s.pc t ≡ asleep
      → (s.progress ≢ works → s.target.ret ≡ value)
      → CanReturn ktid value t s
  from works s h up at ret =
      earlier s (store_ret value s) (exit_ret h) (λ u n. refl)
        (earlier (store_ret value s) (store_exited (store_ret value s)) (exit_state refl)
          (λ u n. refl) (from_leaves (store_exited (store_ret value s)) refl at refl))
  from stored s h up at ret =
      earlier s (store_exited s) (exit_state h) (λ u n. refl)
        (from_leaves (store_exited s) refl at (ret (λ e. cc (e, h))))
  from leaves s h up at ret = from_leaves s h at (ret (λ e. cc (e, h)))
  from gone s h up at ret = absurd (up h)

-- Where no signal interrupts a wait in the kernel: wherever the target is, from a state in which a joiner sleeps on
-- it there is a run, in which no other joiner moves, that ends with the target gone and the joiner's return with the
-- target's result.
pub sleeper_returns :
    (ktid value ret : ℕ) (s : System) (t : ℕ)
    → ktid ≢ 0
    → Reachable false ktid value ret s
    → s.pc t ≡ asleep
    → CanReturn ktid value t s
sleeper_returns ktid value ret s t nz r at =
    from ktid value t s.progress s refl (sleeper_is_woken ktid value ret s t nz r at).0 at
      (Reachable-Inv nz s r).result
