-- ===== src/Hybrid/Control/Protocol.antt =====
-- A join from beginning to end between threads of the two types: the joiner waits, the target exits, the
-- dispatcher and the kernel do their part, and the joiner goes on. What runs on another kernel thread has
-- another FS register and another number.
pub mod Sleep
pub mod Switch
use libthreads_c.Base.{
  ℕ, ◌≡◌, refl, sym, Bool, true, false, Option, none, some, List, [], ◌∷◌, ◌==◌, ==-refl, ==_sym,
  ◌∙◌, inl, inr, ap, if◌then◌else◌,
}
use libthreads_c.Mods.Timer.{timer_set}
use libthreads_c.ManyMany.Sched.{mmsched_time_slice_ms}
use libthreads_c.Hybrid.World.{
  Ptr, null, running, exited, joined, wait_join, success, Status, Contexts, one_one, many_many,
  Thread, World, Run, spins, Event, futex_woken, timer_started, timer_stopped, Cmd, ◌>>=◌, ◌>>◌,
  modify, Returns, Returns-bind, Returns-mono,
}
use libthreads_c.Hybrid.Facts.{
  Holds, Live, set_intr, on_swap, on_leave, on_swap-Returns, on_leave-Returns,
}
use libthreads_c.Hybrid.Control.{thread_join, thread_exit, join_finish, after_switch}
use libthreads_c.Hybrid.Sched.{post_schedule, switch_to_next}
use libthreads_c.Hybrid.Sched.Turn.{Switched, switch_to_next_lem}
use libthreads_c.Hybrid.Sched.Post.{Unlocked, Over, post_wait_join, post_exited_tells}
use libthreads_c.Hybrid.Control.Join.{
  Asleep, Switching, Finished, join_sleeps, join_switches, join_finish_lem,
}
use libthreads_c.Hybrid.Control.Exit.{
  Left, Ended, Joiner, many_many_joiner, one_one_joiner, many_many_exits, one_one_exits,
}

abbrev pub runs_on : Ptr → ℕ → Cmd (Unit {0})
runs_on fs ktid = modify (λ w. record w { self = fs; tid = ktid })

-- The latest event woke who sleeps on the wait word of `p`.
abbrev pub is_wake : Ptr → List Event → Bool
is_wake p [] = false
is_wake p (futex_woken q ∷ es) = q == p
is_wake p (_ ∷ es) = false

-- A sleeper on the wait word of `p` goes on only if it was woken.
abbrev pub when_woken : {A : Type 0} → Ptr → Cmd A → Cmd A
when_woken p rest w = if is_wake p w.events then rest w else spins

-- The one-one caller joins `p`; on the kernel thread `ktid` the dispatcher chooses a thread, which exits
-- with `value`; the caller goes on if it is woken.
abbrev pub sleep_and_exit : Ptr → ℕ → Ptr → Bool → Ptr → Cmd (Status × Option Ptr)
sleep_and_exit old_fs ktid p want_ret value w = on_swap (thread_join p want_ret w) λ g rest.
    (do
      runs_on old_fs ktid
      target ← switch_to_next
      λ g'.
          on_leave (thread_exit value g')
            (do post_schedule old_fs false target; runs_on w.self w.tid; when_woken p rest))
      g

-- The many-many caller joins `p`; the dispatcher switches it out; `p` exits with `value` on its kernel
-- thread `ktid`; the dispatcher resumes whoever is ready.
abbrev pub switch_and_exit : Ptr → ℕ → Ptr → Bool → Ptr → Cmd (Status × Option Ptr)
switch_and_exit old_fs ktid p want_ret value w = on_swap (thread_join p want_ret w) λ g rest.
    (do
      post_schedule old_fs false w.self
      runs_on p ktid
      λ g'.
          on_leave (thread_exit value g') (do runs_on old_fs w.tid; joiner ← switch_to_next; rest))
      g

-- What the joiner has at the end.
abbrev pub JoinDone : World → Ptr → Option Ptr → Status × Option Ptr → World → Type 0
JoinDone w p expected (status, ret) g =
    (status ≡ success)
    × (ret ≡ expected)
    × (g.self ≡ w.self)
    × (g.mmrll ≡ [])
    × (g.mmrll_lk ≡ 1)
    × ((t' : Thread) × (g.threads p ≡ some t') × (t'.state ≡ joined))
    × ((c' : Thread) × (g.threads w.self ≡ some c')
        × (c'.state ≡ running)
        × (c'.wait_join_td ≡ null)
        × (c'.members ≡ set_intr 0 c'.members))
