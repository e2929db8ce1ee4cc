-- ===== src/ManyMany/Signal/Laws.antt =====
-- thread_kill: the signal is noted in the mask of the target.
use libthreads_c.Base.{
  ℕ, ◌≤◌, ◌<◌, ◌^◌, ◌≡◌, refl, ap, sym, true, false, some, ◌||◌, ◌⊎◌, ltb, ◌==◌, ==-refl, has,
  arith,
}
use libthreads_c.Mods.Lock.{lock_acquire, lock_release}
use libthreads_c.ManyMany.World.{Ptr, null, einval, Status, fail, success, Thread, World, Returns}
use libthreads_c.ManyMany.Facts.{Holds, SameThreads, SameLists}
use libthreads_c.ManyMany.Pending.{td_set_sig_pending}
use libthreads_c.ManyMany.Pending.Laws.{signals, signals-td_set_sig_pending, td_set_sig_pending-lt}
use libthreads_c.ManyMany.Signal.{thread_kill}

-- The signal was added to the mask of `p`, whose descriptor was `t`, and no other descriptor
-- changed.
pub record Noted (w : World) (p : Ptr) (t : Thread) (signo : ℕ) (status : Status) (g : World)
    : Type 0 where
  pub ok : status ≡ success
  pub mask : ℕ
  pub at : g.threads p ≡ some (record t { pend_sig = mask; intr_off = 0 })
  pub fits : mask < 2 ^ 32
  pub pending :
      (a : ℕ) → 1 ≤ a → a ≤ 32 → has a (signals mask) ≡ ((a == signo) || has a (signals t.pend_sig))
  pub same : SameThreads w g p p
  pub lists : SameLists w g
  pub quiet : (g.tid ≡ w.tid) × (g.events ≡ w.events)

-- A signal from 1 to 31 sent to a thread becomes pending there, and the others that were pending
-- stay so; the descriptor is unlocked again, and its interrupts are on after the call, whatever
-- they were before.
pub kill_pending :
    (w : World) (p : Ptr) (t : Thread) (signo : ℕ)
    → Holds w p t
    → t.mem_lock ≡ 1
    → t.pend_sig < 2 ^ 32
    → 1 ≤ signo
    → signo ≤ 31
    → Returns (Noted w p t signo) (thread_kill p signo w)
unfolding thread_kill lock_acquire lock_release
kill_pending w p t signo thread free fits lo hi =
    let low : ltb signo 1 ≡ false = ground arith in
    let high : ltb 31 signo ≡ false = ground arith in
    simp (thread.not_null, thread.at, free, low, high, ==-refl)
      (record {
        ok = refl;
        mask = td_set_sig_pending t.pend_sig signo;
        at = simp ==-refl (
            ap
              (λ (l : ℕ). some (record t {
                pend_sig = td_set_sig_pending t.pend_sig signo;
                intr_off = 0;
                mem_lock = l;
              }))
              (sym free));
        fits = td_set_sig_pending-lt t.pend_sig signo lo (omega arith) fits;
        pending = λ a l h. signals-td_set_sig_pending t.pend_sig signo a lo (omega arith) l h;
        same = λ a n n'. simp n refl;
        lists = (refl, refl, refl);
        quiet = (refl, refl);
      })

-- A NULL handle and a signal number out of range, negative ones among them, are refused with
-- EINVAL and change nothing else.
pub kill_invalid :
    (w : World) (p : Ptr) (c : Thread) (signo : ℕ)
    → Holds w w.self c
    → (p ≡ null) ⊎ (signo ≡ 0) ⊎ (31 < signo)
    → Returns
        (λ status g.
          (status ≡ fail)
          × (g.threads w.self ≡ some (record c { error = einval }))
          × SameThreads w g w.self w.self
          × SameLists w g)
        (thread_kill p signo w)
unfolding thread_kill
kill_invalid w p c signo caller bad =
    let e : ((p == null) || (ltb signo 1 || ltb 31 signo)) ≡ true = ground arith in
    simp (e, caller.not_null, caller.at, ==-refl)
      (refl, refl, λ a n n'. simp n refl, (refl, refl, refl))
