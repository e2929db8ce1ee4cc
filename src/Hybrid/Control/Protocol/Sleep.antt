-- ===== src/Hybrid/Control/Protocol/Sleep.antt =====
-- A one-one thread that joins a many-many thread.
use libthreads_c.Base.{
  ℕ, ◌≡◌, refl, Bool, true, false, Option, none, some, List, [], ◌∷◌, ◌==◌, ==-refl, ==_sym, ◌∙◌,
  inr, ap, if◌then◌else◌,
}
use libthreads_c.Mods.Timer.{timer_set}
use libthreads_c.ManyMany.Sched.{mmsched_time_slice_ms}
use libthreads_c.Hybrid.World.{
  Ptr, null, running, exited, joined, wait_join, Status, Contexts, one_one, many_many, Thread,
  World, Run, Event, futex_woken, timer_stopped, ◌>>◌, Returns, Returns-bind, Returns-mono,
}
use libthreads_c.Hybrid.Facts.{
  Holds, Live, Allocated, set_intr, on_leave, on_swap-Returns, on_leave-Returns,
}
use libthreads_c.Hybrid.Control.{thread_exit, join_finish}
use libthreads_c.Hybrid.Sched.{post_schedule}
use libthreads_c.Hybrid.Sched.Turn.{Switched, switch_to_next_lem}
use libthreads_c.Hybrid.Sched.Post.{Over, post_exited_tells}
use libthreads_c.Hybrid.Control.Join.{Asleep, Finished, join_sleeps, join_finish_lem}
use libthreads_c.Hybrid.Control.Exit.{Left, Joiner, one_one_joiner, many_many_exits}
use libthreads_c.Hybrid.Control.Protocol.{runs_on, is_wake, when_woken, sleep_and_exit, JoinDone}

module _ (w : World) (p old_fs : Ptr) (ktid : ℕ) (want_ret : Bool) (value : Ptr)
    (ne : (w.self == p) ≡ false) (not_null : (w.self == null) ≡ false) where
  en : (p == w.self) ≡ false
  en = ==_sym p w.self ∙ ne

  abbrev Q : Status × Option Ptr → World → Type 0
  Q = JoinDone w p (if want_ret then some value else none)

  -- The joiner, whose descriptor is `c`, is woken; the target has left `value`.
  wake :
      (g : World) (t c : Thread) (own : ℕ) (stack : Ptr) (es : List Event)
      → Holds g p t
      → Allocated t.members
      → t.ret ≡ value
      → Holds g w.self c
      → c.members ≡ one_one own stack
      → g.mmrll ≡ []
      → g.mmrll_lk ≡ 1
      → g.events ≡ futex_woken p ∷ es
      → (k : World → Run (Status × Option Ptr))
      → ((v : World) → k v ≡ join_finish w.self p want_ret v)
      → Returns Q ((do runs_on w.self w.tid; when_woken p k) g)
  wake g t c own stack es target live ret caller kind ready free events k saved =
      let g' : World = record g { self = w.self; tid = w.tid } in
      let woken : is_wake p g.events ≡ true = ap (is_wake p) events ∙ ==-refl p in
      rw woken (
        rw (saved g') (
          Returns-mono (Finished g' p t c want_ret) Q _
            (join_finish_lem g' p t c want_ret
              (record { not_null = target.not_null; at = target.at }) ne
              (record { not_null = not_null; at = caller.at }) live)
            λ (status, r') g5 (ok', ret', at5, mine, ev5, others5, (l5, l5', s5)). (
              ok',
              ret' ∙ ap (λ (v : Ptr). if want_ret then some v else none) ret,
              s5,
              l5 ∙ ready,
              l5' ∙ free,
              (record t { state = joined }, at5, refl),
              (
                record c { state = running; wait_join_td = null; members = set_intr 0 c.members },
                mine,
                refl,
                refl,
                rw kind refl,
              ),
            )))

  -- The target, which the joiner with the descriptor `c` waits for, runs and exits.
  exit :
      (g : World) (t c : Thread) (x : Contexts) (own : ℕ) (stack : Ptr)
      → Live g p t x
      → g.self ≡ p
      → t.state ≡ running
      → t.mem_lock ≡ 1
      → t.join_td ≡ w.self
      → Holds g w.self c
      → c.members ≡ one_one own stack
      → g.mmrll ≡ []
      → g.mmrll_lk ≡ 1
      → (k : World → Run (Status × Option Ptr))
      → ((v : World) → k v ≡ join_finish w.self p want_ret v)
      → Returns Q (
          on_leave
            (thread_exit value g)
            (do post_schedule old_fs false p; runs_on w.self w.tid; when_woken p k))
  exit g t c x own stack target self st unlocked claimed caller kind empty free k saved =
      on_leave-Returns (Left g t value) Q _ _
        (many_many_exits g t value (rw st) (rw st) x (record {
          not_null = rw self target.not_null;
          at = rw self target.at;
          members_at = target.members_at;
          curr = target.curr;
          ret_ = target.ret_;
        }))
        λ g3 (at3, others3, (m, m', s3)).
          let t3 : Thread = record t {
            ret = value;
            state = exited;
            members = set_intr 1 t.members;
          } in
          let kind3 : t3.members ≡ many_many (record x { intr_off = 1 }) =
            ap (set_intr 1) target.members_at in
          let c3 : g3.threads w.self ≡ some c =
            others3 w.self (rw self ne) (rw self ne) ∙ caller.at in
          let joiner : Joiner (record g3 { self = p }) t3 =
            one_one_joiner c own stack
              (record { not_null = rw claimed not_null; at = rw claimed c3 }) kind
              (rw claimed ne) in
          Returns-bind (Over g3 p t3 joiner) Q _ _
            (post_exited_tells g3 p old_fs t3 (record x { intr_off = 1 }) false
              (record {
                not_null = target.not_null;
                at = rw self at at3;
                members_at = kind3;
                curr = target.curr;
                ret_ = target.ret_;
              })
              joiner refl (m' ∙ free) unlocked)
            λ next g4 (e, ready4, lk4, ev4, at4, others4).
              wake g4 (record t3 { wait = 0; mem_lock = 1 }) c own stack
                (timer_stopped p ∷ g3.events) (record { not_null = target.not_null; at = at4 })
                (rw kind3 (target.curr, target.ret_)) refl
                (record { not_null = not_null; at = others4 w.self ne ne ∙ c3 }) kind
                (ready4 ∙ (m ∙ empty)) lk4 ev4 k saved

  -- A one-one thread that joins a many-many thread, which is alone on the ready list, sleeps until the
  -- dispatcher wakes it after the target's exit, and returns success with the very value of that exit. The
  -- target is marked as joined then, the caller runs, and the ready list is empty and unlocked.
  pub one_one_joins_many_many :
      (t c : Thread) (x : Contexts) (own : ℕ) (stack : Ptr)
      → Holds w w.self c
      → c.members ≡ one_one own stack
      → Live w p t x
      → t.state ≡ running
      → (c.join_td == p) ≡ false
      → t.mem_lock ≡ 1
      → t.join_td ≡ null
      → t.wait ≡ 1
      → x.pend_sig ≡ 0
      → w.mmrll ≡ p ∷ []
      → w.mmrll_lk ≡ 1
      → Returns
          (JoinDone w p (if want_ret then some value else none))
          (sleep_and_exit old_fs ktid p want_ret value w)
  one_one_joins_many_many t c x own stack caller kind target st nd free nojoin word nosig ready
        list_free =
      let c1 : Thread = record c { wait_join_td = p; state = wait_join } in
      let t1 : Thread = record t { join_td = w.self; mem_lock = 1 } in
      on_swap-Returns (Asleep w p t c) Q _ (join_finish w.self p want_ret) _
        (join_sleeps w p t c want_ret (record { not_null = target.not_null; at = target.at }) ne own
          stack caller kind (rw st) nd free nojoin (rw word) (word ∙ rw target.members_at))
        λ g1 k (at_p, at_c, ev, others, (l, l', s)) saved.
          let g1' : World = record g1 { self = old_fs; tid = ktid } in
          Returns-bind (Switched g1' p [] t1 x) Q _ _
            (switch_to_next_lem g1' p [] t1 x (l ∙ ready) (l' ∙ list_free)
              (record {
                not_null = target.not_null;
                at = at_p;
                members_at = target.members_at;
                curr = target.curr;
                ret_ = target.ret_;
              })
              (inr (nosig, refl)))
            λ r g2 (r_eq, self, empty, lk, at2, others2).
              let x2 : Contexts = record x { timer = timer_set ktid mmsched_time_slice_ms } in
              rw r_eq (
                exit g2 (record t1 { members = many_many x2 }) c1 x2 own stack
                  (record {
                    not_null = target.not_null;
                    at = at2;
                    members_at = refl;
                    curr = target.curr;
                    ret_ = target.ret_;
                  })
                  self st refl refl
                  (record { not_null = not_null; at = others2 w.self ne ne ∙ at_c }) kind empty lk k
                  saved)
