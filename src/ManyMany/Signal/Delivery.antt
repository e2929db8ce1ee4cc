-- ===== src/ManyMany/Signal/Delivery.antt =====
-- A signal from thread_kill to the dispatcher that sends it.
use libthreads_c.Base.{ℕ, ◌≤◌, ◌<◌, ◌^◌, ◌≡◌, ◌∙◌, refl, true, ap, some, ◌||◌, ◌==◌, ==-refl, has}
use libthreads_c.ManyMany.World.{Ptr, Thread, World, ◌>>◌, Returns, Returns-bind, Returns-mono}
use libthreads_c.ManyMany.Facts.{Holds, SameThreads}
use libthreads_c.ManyMany.Pending.Laws.{signals}
use libthreads_c.Mods.Timer.{Timer, timer_set}
use libthreads_c.ManyMany.Descr.{is_running}
use libthreads_c.ManyMany.Sched.{prepare}
use libthreads_c.ManyMany.Sched.Send.{sent, Sent, send_pending_signals_lem}
use libthreads_c.ManyMany.Signal.{thread_kill}
use libthreads_c.ManyMany.Signal.Laws.{Noted, kill_pending}

-- The signals that `p`, whose descriptor was `t`, gets: those that were pending and `signo`, in one
-- list that the dispatcher sends to its own kernel thread.
pub record Delivered (w : World) (p : Ptr) (t : Thread) (signo : ℕ) (u : Unit {0}) (g : World)
    : Type 0 where
  pub mask : ℕ
  pub those :
      (a : ℕ) → 1 ≤ a → a ≤ 32 → has a (signals mask) ≡ ((a == signo) || has a (signals t.pend_sig))
  pub events : g.events ≡ sent w.tid (signals mask) w.events
  pub timer : Timer
  pub at : g.threads p ≡ some (record t { timer = timer; pend_sig = 0; intr_off = 0 })
  pub same : SameThreads w g p p

-- The pending signals of a thread that runs by its state have been sent, and its timer is set.
abbrev Prepared : World → Ptr → Thread → Unit {0} → World → Type 0
Prepared w p t u g =
    ((timer : Timer) × (g.threads p ≡ some (record t { timer = timer; pend_sig = 0 })))
    × (g.events ≡ sent w.tid (signals t.pend_sig) w.events)
    × SameThreads w g p p

prepare_lem :
    (w : World) (p : Ptr) (t : Thread)
    → Holds w p t
    → is_running t.state ≡ true
    → t.mem_lock ≡ 1
    → t.pend_sig < 2 ^ 32
    → Returns (Prepared w p t) (prepare p w)
unfolding prepare timer_set
prepare_lem w p t thread runs free fits =
    simp (thread.not_null, thread.at, runs)
      (Returns-bind (Sent w p t) (Prepared w p t) _ _
        (send_pending_signals_lem w p t thread free fits)
        λ u g (at, events, same, lists).
          simp (thread.not_null, at, ==-refl) ((_, refl), events, λ a n n'. simp n (same a n n')))

-- A signal that thread_kill notes for a thread that is running by its state is sent when a dispatcher, which has
-- chosen the thread, next prepares its switch to it, with the signals that were pending before and no others; then
-- nothing is pending.
pub kill_delivers :
    (w : World) (p : Ptr) (t : Thread) (signo : ℕ)
    → Holds w p t
    → is_running t.state ≡ true
    → t.mem_lock ≡ 1
    → t.pend_sig < 2 ^ 32
    → 1 ≤ signo
    → signo ≤ 31
    → Returns (Delivered w p t signo) ((do thread_kill p signo; prepare p) w)
kill_delivers w p t signo thread runs free fits lo hi =
    Returns-bind (Noted w p t signo) (Delivered w p t signo) _ _
      (kill_pending w p t signo thread free fits lo hi)
      λ status v noted.
        let (tid, events) = noted.quiet in
        Returns-mono (Prepared v p (record t { pend_sig = noted.mask; intr_off = 0 }))
          (Delivered w p t signo) _
          (prepare_lem v p (record t { pend_sig = noted.mask; intr_off = 0 })
            (record { not_null = thread.not_null; at = noted.at }) runs free noted.fits)
          λ u g ((timer, at), sent', same). (record {
            mask = noted.mask;
            those = noted.pending;
            events =
                sent'
                ∙ (ap (λ (k : ℕ). sent k (signals noted.mask) v.events) tid
                    ∙ ap (sent w.tid (signals noted.mask)) events);
            timer = timer;
            at = at;
            same = λ a n n'. same a n n' ∙ noted.same a n n';
          })
