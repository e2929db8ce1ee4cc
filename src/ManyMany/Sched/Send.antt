-- ===== src/ManyMany/Sched/Send.antt =====
-- From thread_kill to the signals that the dispatcher sends before it runs the thread.
use libthreads_c.Base.{
  ℕ, zero, suc, ◌^◌, ◌<◌, ◌≡◌, ◌∙◌, refl, ap, sym, some, List, [], ◌∷◌, arith, inl, inr, ◌==◌,
  ==-refl, length, Bool-cases,
}
use libthreads_c.Mods.Lock.{lock_acquire, lock_release}
use libthreads_c.ManyMany.World.{
  Ptr, Thread, World, Event, signal_sent, Returns, Returns-mono, Returns-bind, put_thread,
}
use libthreads_c.ManyMany.Facts.{Holds, SameThreads, SameLists}
use libthreads_c.ManyMany.Pending.{td_get_sig_pending, td_is_sig_pending}
use libthreads_c.ManyMany.Pending.Laws.{
  signals, signals-zero, length-signals, td_get_sig_pending_lem,
}
use libthreads_c.ManyMany.Sched.{send_loop, send_pending_signals}

-- The events of sending the signals of a list in its order, on top of earlier ones.
abbrev pub sent : ℕ → List ℕ → List Event → List Event
sent tid [] events = events
sent tid (s ∷ l) events = sent tid l (signal_sent tid s ∷ events)

-- The mask of `p`, whose descriptor was `t`, is empty, and its signals were sent.
abbrev pub Sent : World → Ptr → Thread → Unit {0} → World → Type 0
Sent w p t u g =
    (g.threads p ≡ some (record t { pend_sig = 0 }))
    × (g.events ≡ sent w.tid (signals t.pend_sig) w.events)
    × SameThreads w g p p
    × SameLists w g

send_loop_lem :
    (n : ℕ) (w : World) (p : Ptr) (t : Thread)
    → Holds w p t
    → t.pend_sig < 2 ^ 32
    → length (signals t.pend_sig) < n
    → Returns (Sent w p t) (send_loop n p w)
unfolding send_loop td_is_sig_pending
send_loop_lem zero w p t thread fits fuel = absurd (omega arith)
send_loop_lem (suc n) w p t thread fits fuel = elim (Bool-cases (t.pend_sig == 0)) [
  | inl empty ↦
      let e : t.pend_sig ≡ 0 = ground arith in
      simp (thread.not_null, thread.at, empty)
        (
          ap (λ (m : ℕ). some (record t { pend_sig = m })) e,
          sym (
              ap (λ (m : ℕ). sent w.tid (signals m) w.events) e
              ∙ ap (λ (l : List ℕ). sent w.tid l w.events) signals-zero),
          λ a n n'. refl,
          (refl, refl, refl),
        )
  | inr more ↦
      let (first, fits', lo, hi) = td_get_sig_pending_lem t.pend_sig (ground arith) fits in
      let (signo, m) = td_get_sig_pending t.pend_sig in
      let t' : Thread = record t { pend_sig = m } in
      let w' : World = record (put_thread p (some t') w) {
        events = signal_sent w.tid signo ∷ w.events;
      } in
      simp (thread.not_null, thread.at, more)
        (Returns-mono (Sent w' p t') (Sent w p t) _
          (send_loop_lem n w' p t' (record { not_null = thread.not_null; at = simp ==-refl }) fits'
            (omega (arith, ap length first)))
          λ u g (at, events, same, lists). (
            at,
            events ∙ sym (ap (λ (l : List ℕ). sent w.tid l w.events) first),
            λ a n n'. same a n n' ∙ simp n refl,
            lists,
          ))
]

-- The dispatcher sends exactly the pending signals of a thread, each once, in ascending order, to
-- its own kernel thread, and leaves the mask empty and the descriptor unlocked. The loop ends: 33
-- rounds do for 32 bits.
pub send_pending_signals_lem :
    (w : World) (p : Ptr) (t : Thread)
    → Holds w p t
    → t.mem_lock ≡ 1
    → t.pend_sig < 2 ^ 32
    → Returns (Sent w p t) (send_pending_signals p w)
unfolding send_pending_signals lock_acquire lock_release
send_pending_signals_lem w p t thread free fits =
    let t' : Thread = record t { mem_lock = 0 } in
    let w' : World = put_thread p (some t') w in
    simp (thread.not_null, thread.at, free)
      (Returns-bind (Sent w' p t') (Sent w p t) _ _
        (send_loop_lem 33 w' p t' (record { not_null = thread.not_null; at = simp ==-refl }) fits
          (omega (arith, length-signals t.pend_sig)))
        λ u g (at, events, same, lists).
          simp (thread.not_null, at, ==-refl)
            (
              ap (λ (l : ℕ). some (record t { pend_sig = 0; mem_lock = l })) (sym free),
              events,
              λ a n n'. simp n (same a n n' ∙ simp n refl),
              lists,
            ))
