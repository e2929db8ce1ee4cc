-- ===== src/Hybrid/Control/Protocol/Switch.antt =====
-- A many-many thread that joins a one-one thread.
use libthreads_c.Base.{
  ℕ, ◌≡◌, refl, Bool, false, Option, none, some, [], ◌∷◌, ◌==◌, subst, ==_sym, ◌∙◌, inl, ap,
  if◌then◌else◌,
}
use libthreads_c.Mods.Timer.{timer_set}
use libthreads_c.ManyMany.Sched.{mmsched_time_slice_ms}
use libthreads_c.Hybrid.World.{
  Ptr, null, running, exited, joined, wait_join, Status, Contexts, one_one, many_many, Thread,
  World, Run, ok, ◌>>=◌, ◌>>◌, Returns, Returns-bind, Returns-mono,
}
use libthreads_c.Hybrid.Facts.{Holds, Live, set_intr, on_leave, on_swap-Returns, on_leave-Returns}
use libthreads_c.Hybrid.Control.{thread_exit, join_finish, after_switch}
use libthreads_c.Hybrid.Sched.{switch_to_next}
use libthreads_c.Hybrid.Sched.Turn.{Switched, switch_to_next_lem}
use libthreads_c.Hybrid.Sched.Post.{Unlocked, post_wait_join}
use libthreads_c.Hybrid.Control.Join.{Switching, Finished, join_switches, join_finish_lem}
use libthreads_c.Hybrid.Control.Exit.{Ended, Joiner, many_many_joiner, one_one_exits}
use libthreads_c.Hybrid.Control.Protocol.{runs_on, switch_and_exit, JoinDone}

-- A resumed joiner of a one-one thread whose wait word is clear does not wait.
after_switch_lem :
    (g : World) (p : Ptr) (t : Thread) (ktid : ℕ) (stack : Ptr)
    → Holds g p t
    → t.members ≡ one_one ktid stack
    → t.wait ≡ 0
    → after_switch p g ≡ ok tt g
unfolding after_switch
after_switch_lem g p t ktid stack target kind word = simp (target.not_null, target.at, kind, word)

module _ (w : World) (p old_fs : Ptr) (ktid : ℕ) (want_ret : Bool) (value : Ptr)
    (ne : (w.self == p) ≡ false) (not_null : (w.self == null) ≡ false) where
  en : (p == w.self) ≡ false
  en = ==_sym p w.self ∙ ne

  abbrev Q : Status × Option Ptr → World → Type 0
  Q = JoinDone w p (if want_ret then some value else none)

  -- The rest of a join, which the joiner runs once it is resumed.
  abbrev rest : World → Run (Status × Option Ptr)
  rest = do after_switch p; join_finish w.self p want_ret

  -- The joiner, alone on the ready list, is resumed; the one-one target has ended with `value`.
  resume :
      (g : World) (t c : Thread) (x : Contexts) (stack : Ptr)
      → Holds g p t
      → t.members ≡ one_one ktid stack
      → t.wait ≡ 0
      → t.ret ≡ value
      → Live g w.self c x
      → c.state ≡ wait_join
      → g.mmrll ≡ w.self ∷ []
      → g.mmrll_lk ≡ 1
      → (k : World → Run (Status × Option Ptr)) → ((v : World) → k v ≡ rest v)
      → Returns Q ((switch_to_next >>= λ joiner. k) g)
  resume g t c x stack target kind word ret caller st ready free k saved =
      let c1 : Thread = record c {
        members = many_many (record x { timer = timer_set g.tid mmsched_time_slice_ms });
      } in
      Returns-bind (Switched g w.self [] c x) Q _ _
        (switch_to_next_lem g w.self [] c x ready free caller (inl (rw st)))
        λ joiner g' (e, self, empty, lk, at, same).
          let target' : Holds g' p t = record {
            not_null = target.not_null;
            at = same p en en ∙ target.at;
          } in
          rw (saved g', after_switch_lem g' p t ktid stack target' kind word)
            (subst (λ (s : Ptr). Returns Q (join_finish s p want_ret g')) self
              (Returns-mono (Finished g' p t c1 want_ret) Q _
                (join_finish_lem g' p t c1 want_ret target' (rw self ne)
                  (record { not_null = rw self not_null; at = rw self at }) (rw kind tt))
                λ (status, r) g'' (ok', r', gone, mine, ev, others, (l, l', s)). (
                  ok',
                  r' ∙ ap (λ (v : Ptr). if want_ret then some v else none) ret,
                  s ∙ self,
                  l ∙ empty,
                  l' ∙ lk,
                  (record t { state = joined }, gone, refl),
                  (
                    record c1 {
                      state = running;
                      wait_join_td = null;
                      members = set_intr 0 c1.members;
                    },
                    rw self at mine,
                    refl,
                    refl,
                    refl,
                  ),
                )))

  -- The one-one target, which the joiner waits for, exits on its own kernel thread.
  exit :
      (g : World) (t c : Thread) (x : Contexts) (stack : Ptr)
      → Holds g p t
      → t.members ≡ one_one ktid stack
      → t.state ≡ running
      → t.mem_lock ≡ 1
      → t.join_td ≡ w.self
      → Live g w.self c x
      → c.state ≡ wait_join
      → g.mmrll ≡ []
      → g.mmrll_lk ≡ 1
      → (k : World → Run (Status × Option Ptr)) → ((v : World) → k v ≡ rest v)
      → Returns Q (
          on_leave
            (thread_exit value (record g { self = p; tid = ktid }))
            (do runs_on old_fs w.tid; joiner ← switch_to_next; k))
  exit g t c x stack target kind st unlocked claimed caller st' empty free k saved =
      let v : World = record g { self = p; tid = ktid } in
      let joiner : Joiner v t =
        many_many_joiner c x
          (record {
            not_null = rw claimed not_null;
            at = rw claimed caller.at;
            members_at = caller.members_at;
            curr = caller.curr;
            ret_ = caller.ret_;
          })
          (rw claimed ne) in
      on_leave-Returns (Ended v t joiner value) Q _ _
        (one_one_exits v t value (rw st) (rw st) ktid stack joiner
          (record { not_null = target.not_null; at = target.at }) kind unlocked free)
        λ g3 (at3, ready3, lk3, ev3, others3).
          resume (record g3 { self = old_fs; tid = w.tid })
            (record t { ret = value; state = exited; wait = 0; mem_lock = 1 }) c x stack
            (record { not_null = target.not_null; at = at3 }) kind refl refl
            (record {
              not_null = not_null;
              at = others3 w.self ne ne ∙ caller.at;
              members_at = caller.members_at;
              curr = caller.curr;
              ret_ = caller.ret_;
            })
            st' (ready3 ∙ rw (empty, claimed) refl) lk3 k saved

  -- A many-many thread that joins a one-one thread gives up its dispatcher, is made ready by the target's
  -- exit, finds the wait word clear when it is resumed, and returns success with the very value of that
  -- exit. The target is marked as joined then, the caller runs with its interrupts on, and the ready list
  -- is empty and unlocked.
  pub many_many_joins_one_one :
      (t c : Thread) (x : Contexts) (stack : Ptr)
      → Live w w.self c x
      → Holds w p t
      → t.members ≡ one_one ktid stack
      → t.state ≡ running
      → (c.join_td == p) ≡ false
      → t.mem_lock ≡ 1
      → t.join_td ≡ null
      → (t.wait == 0) ≡ false
      → w.mmrll ≡ []
      → w.mmrll_lk ≡ 1
      → Returns
          (JoinDone w p (if want_ret then some value else none))
          (switch_and_exit old_fs ktid p want_ret value w)
  many_many_joins_one_one t c x stack caller target kind st nd free nojoin over ready list_free =
      let c1 : Thread = record c {
        wait_join_td = p;
        state = wait_join;
        members = set_intr 1 c.members;
      } in
      let x1 : Contexts = record x { intr_off = 1 } in
      let kind1 : c1.members ≡ many_many x1 = ap (set_intr 1) caller.members_at in
      let t1 : Thread = record t { join_td = w.self; mem_lock = 0 } in
      on_swap-Returns (Switching w p t c) Q _ rest _
        (join_switches w p t c want_ret target ne x caller (rw st) nd free nojoin over)
        λ g1 k (at_p, at_c, others, (l, l', s)) saved.
          Returns-bind (Unlocked g1 p t1) Q _ _
            (post_wait_join g1 w.self old_fs c1 x1 false
              (record {
                not_null = not_null;
                at = at_c;
                members_at = kind1;
                curr = caller.curr;
                ret_ = caller.ret_;
              })
              t1 refl (record { not_null = target.not_null; at = at_p }) refl)
            λ next g2 (e, m, m', free_p, others2).
              exit g2 (record t1 { mem_lock = 1 }) c1 x1 stack
                (record { not_null = target.not_null; at = free_p }) kind st refl refl
                (record {
                  not_null = not_null;
                  at = others2 w.self ne ne ∙ at_c;
                  members_at = kind1;
                  curr = caller.curr;
                  ret_ = caller.ret_;
                })
                refl (m ∙ l ∙ ready) (m' ∙ l' ∙ list_free) k saved
