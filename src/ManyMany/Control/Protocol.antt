-- ===== src/ManyMany/Control/Protocol.antt =====
-- A join from beginning to end on one kernel thread: the joiner waits, the target runs and exits,
-- and the joiner goes on.
use libthreads_c.Base.{
  ◌≡◌, refl, Bool, false, Option, none, some, [], ◌∷◌, ◌==◌, ==_sym, ◌∙◌, inl, inr, subst, ap,
  if◌then◌else◌,
}
use libthreads_c.Mods.Timer.{timer_set}
use libthreads_c.ManyMany.World.{
  Ptr, null, running, exited, success, Status, Thread, World, Run, Cmd, ◌>>=◌, ◌>>◌, Returns,
  Returns-bind, Returns-mono, wait_join,
}
use libthreads_c.ManyMany.Facts.{Holds, Live, on_swap, on_leave, on_swap-Returns, on_leave-Returns}
use libthreads_c.ManyMany.Control.{thread_join, thread_exit, join_finish}
use libthreads_c.ManyMany.Sched.{post_schedule}
use libthreads_c.ManyMany.Sched.Turn.{Switched, switch_to_next, switch_to_next_lem}
use libthreads_c.ManyMany.Sched.Post.{Unlocked, Over, post_wait_join, post_exited}
use libthreads_c.ManyMany.Control.Join.{Waiting, Finished, join_waits, join_finish_lem}
use libthreads_c.ManyMany.Control.Exit.{Left, exit_for_good}

-- The caller joins `p`; whoever is next then exits with `value`; whoever is next then resumes the
-- caller's saved context.
abbrev pub join_and_exit : Ptr → Ptr → Bool → Ptr → Cmd (Status × Option Ptr)
join_and_exit old_fs p want_ret value w = on_swap (thread_join p want_ret w) λ g rest.
    (do
      post_schedule old_fs false w.self
      target ← switch_to_next
      λ g'.
          on_leave (thread_exit value g')
            (do post_schedule old_fs false target; joiner ← switch_to_next; rest))
      g

-- What the joiner has at the end.
abbrev pub JoinDone : World → Ptr → Option Ptr → Status × Option Ptr → World → Type 0
JoinDone w p expected (status, ret) g =
    (status ≡ success)
    × (ret ≡ expected)
    × (g.self ≡ w.self)
    × (g.mmrll ≡ [])
    × (g.mmrll_lk ≡ 1)
    × (g.threads p ≡ none)
    × ((c' : Thread) × (g.threads w.self ≡ some c')
        × (c'.state ≡ running)
        × (c'.intr_off ≡ 0)
        × (c'.wait_for ≡ null))

module _ (w : World) (p old_fs : Ptr) (want_ret : Bool) (value : Ptr) (ne : (w.self == p) ≡ false)
    (not_null : (w.self == null) ≡ false) where
  en : (p == w.self) ≡ false
  en = ==_sym p w.self ∙ ne

  abbrev Q : Status × Option Ptr → World → Type 0
  Q = JoinDone w p (if want_ret then some value else none)

  -- The joiner, last on the ready list, is chosen and resumed; the target has exited.
  resume :
      (g : World) (t c : Thread)
      → Live g p t
      → t.ret ≡ value
      → Live g w.self c
      → c.state ≡ wait_join
      → g.mmrll ≡ w.self ∷ []
      → g.mmrll_lk ≡ 1
      → (k : World → Run (Status × Option Ptr))
      → ((v : World) → k v ≡ join_finish w.self p want_ret v)
      → Returns Q ((switch_to_next >>= λ joiner. k) g)
  resume g t c target ret caller st ready free k saved =
      Returns-bind (Switched g w.self [] c) Q _ _
        (switch_to_next_lem g w.self [] c ready free
          (record { not_null = caller.not_null; at = caller.at }) (inl (rw st)))
        λ joiner g' (e, self, empty, lk, at, same). rw (saved g') (
          subst (λ (s : Ptr). Returns Q (join_finish s p want_ret g')) self
            (Returns-mono (Finished g' p t (record c { timer = timer_set g.tid 10 }) want_ret) Q _
              (join_finish_lem g' p t (record c { timer = timer_set g.tid 10 }) want_ret
                (record {
                  not_null = rw self not_null;
                  at = rw self at;
                  curr = caller.curr;
                  ret = caller.ret;
                })
                (record {
                  not_null = target.not_null;
                  at = same p en en ∙ target.at;
                  curr = target.curr;
                  ret = target.ret;
                })
                (rw self ne))
              λ (status, r) g'' (ok', r', gone, mine, others, (l, l', s)). (
                ok',
                r' ∙ ap (λ (v : Ptr). if want_ret then some v else none) ret,
                s ∙ self,
                l ∙ empty,
                l' ∙ lk,
                gone,
                (
                  record c {
                    state = running;
                    wait_for = null;
                    intr_off = 0;
                    timer = timer_set g.tid 10;
                  },
                  rw self at mine,
                  refl,
                  refl,
                  refl,
                ),
              )))

  -- The target, which the joiner waits for, runs and exits.
  exit :
      (g : World) (t c : Thread)
      → Live g g.self t
      → g.self ≡ p
      → t.state ≡ running
      → t.mem_lock ≡ 1
      → t.join_thread ≡ w.self
      → Live g w.self c
      → c.state ≡ wait_join
      → g.mmrll ≡ []
      → g.mmrll_lk ≡ 1
      → (k : World → Run (Status × Option Ptr))
      → ((v : World) → k v ≡ join_finish w.self p want_ret v)
      → Returns Q (
          on_leave
            (thread_exit value g)
            (do post_schedule old_fs false p; joiner ← switch_to_next; k))
  exit g t c target self st unlocked joined caller st' empty free k saved =
      on_leave-Returns (Left g t value) Q _ _ (exit_for_good g t target value (rw st) (rw st))
        λ g1 (at, same, (l, l', s)).
          let exited_t : Thread = record t { ret = value; intr_off = 1; state = exited } in
          let at_p : g1.threads p ≡ some exited_t = rw self at at in
          let p_null : (p == null) ≡ false = rw (← self) target.not_null in
          let c_at : g1.threads w.self ≡ some c =
            same w.self (rw self ne) (rw self ne) ∙ caller.at in
          let joiner_holds : Holds g1 t.join_thread c = record {
            not_null = rw joined not_null;
            at = rw joined c_at;
          } in
          Returns-bind (Over g1 p exited_t) Q _ _
            (post_exited g1 p old_fs exited_t false (record { not_null = p_null; at = at_p }) refl
              (l' ∙ free) unlocked (inr (c, joiner_holds, rw joined ne)))
            λ next g2 (e, ready, lk, over, others).
              resume g2 (record exited_t { wait = 0 }) c
                (record { not_null = p_null; at = over; curr = target.curr; ret = target.ret }) refl
                (record {
                  not_null = not_null;
                  at = others w.self ne ne ∙ c_at;
                  curr = caller.curr;
                  ret = caller.ret;
                })
                st' (ready ∙ rw (joined, not_null, l, empty)) lk k saved

  -- With the target alone on the ready list, a join of it returns success and the very value that
  -- the target then exits with. At the end the caller runs again with its interrupts on, the
  -- target's descriptor is freed, and the ready list is empty and unlocked.
  pub join_gets_exit_value :
      (t c : Thread)
      → Live w w.self c
      → Live w p t
      → t.state ≡ running
      → (c.join_thread == p) ≡ false
      → t.mem_lock ≡ 1
      → t.join_thread ≡ null
      → (t.wait == 0) ≡ false
      → t.pend_sig ≡ 0
      → w.mmrll ≡ p ∷ []
      → w.mmrll_lk ≡ 1
      → Returns
          (JoinDone w p (if want_ret then some value else none))
          (join_and_exit old_fs p want_ret value w)
  join_gets_exit_value t c caller target st nd free nojoin over nosig ready list_free =
      let c1 : Thread = record c { intr_off = 1; wait_for = p; state = wait_join } in
      let t1 : Thread = record t { join_thread = w.self; mem_lock = 0 } in
      on_swap-Returns (Waiting w p t c) Q _ (join_finish w.self p want_ret) _
        (join_waits w p t c want_ret caller target ne (rw st) nd free nojoin over)
        λ g1 k (at_p, at_c, others, (l, l', s)) saved.
          Returns-bind (Unlocked g1 p t1) Q _ _
            (post_wait_join g1 w.self old_fs c1 false (record { not_null = not_null; at = at_c }) t1
              refl (record { not_null = target.not_null; at = at_p }) refl)
            λ next g2 (e, m, m', free_p, others').
              let t2 : Thread = record t1 { mem_lock = 1 } in
              let c2 : g2.threads w.self ≡ some c1 = others' w.self ne ne ∙ at_c in
              Returns-bind (Switched g2 p [] t2) Q _ _
                (switch_to_next_lem g2 p [] t2 (m ∙ l ∙ ready) (m' ∙ l' ∙ list_free)
                  (record { not_null = target.not_null; at = free_p }) (inr (nosig, refl)))
                λ r g3 (r_eq, self, empty, lk, at3, others3). rw r_eq (
                  exit g3 (record t2 { timer = timer_set g2.tid 10 }) c1
                    (record {
                      not_null = rw self target.not_null;
                      at = rw self at3;
                      curr = target.curr;
                      ret = target.ret;
                    })
                    self st refl refl
                    (record {
                      not_null = not_null;
                      at = others3 w.self ne ne ∙ c2;
                      curr = caller.curr;
                      ret = caller.ret;
                    })
                    refl empty lk k saved)
