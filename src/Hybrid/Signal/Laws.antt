-- ===== src/Hybrid/Signal/Laws.antt =====
-- thread_kill of the hybrid library: a signal to a one-one thread goes to its kernel thread at once, one to a
-- many-many thread is noted for the dispatcher.
use libthreads_c.Base.{
  ℕ, ◌≤◌, ◌<◌, ◌^◌, ◌≡◌, refl, ap, false, some, ◌∷◌, ◌||◌, inl, inr, ltb, ◌==◌, ==-refl, ==_sym,
  has, arith, ◌∙◌,
}
use libthreads_c.Mods.Lock.{lock_acquire, lock_release}
use libthreads_c.ManyMany.Pending.{td_set_sig_pending}
use libthreads_c.ManyMany.Pending.Laws.{signals, signals-td_set_sig_pending, td_set_sig_pending-lt}
use libthreads_c.Hybrid.World.{
  Ptr, Status, success, Contexts, Members, one_one, many_many, Thread, World, ok, signal_sent,
  Returns,
}
use libthreads_c.Hybrid.Facts.{Holds, SameThreads, SameLists, set_intr, members-cases}
use libthreads_c.Hybrid.Signal.{thread_kill}

-- The signal was added to the mask of the many-many thread `p`, whose descriptor was `t`, and of the other
-- descriptors only the interrupt flag of the caller, which was `c`, may have changed.
pub record Noted (w : World) (p : Ptr) (t : Thread) (x : Contexts) (c : Thread) (signo : ℕ)
    (status : Status) (g : World) : Type 0 where
  pub returned : status ≡ success
  pub mask : ℕ
  pub at : g.threads p ≡ some (record t { members = many_many (record x { pend_sig = mask }) })
  pub fits : mask < 2 ^ 32
  pub pending :
      (a : ℕ) → 1 ≤ a → a ≤ 32 → has a (signals mask) ≡ ((a == signo) || has a (signals x.pend_sig))
  pub caller : g.threads w.self ≡ some (record c { members = set_intr 0 c.members })
  pub same : SameThreads w g p w.self
  pub lists : SameLists w g
  pub events : g.events ≡ w.events

module _ (w : World) (p : Ptr) (t : Thread) (signo : ℕ) (thread : Holds w p t) (lo : 1 ≤ signo)
    (hi : signo ≤ 31) where
  -- A signal from 1 to 31 for a one-one thread is sent to its kernel thread, and no descriptor changes.
  pub kill_one_one :
      (ktid : ℕ) (stack : Ptr)
      → t.members ≡ one_one ktid stack
      → thread_kill p signo w ≡ ok success (record w { events = signal_sent ktid signo ∷ w.events })
  unfolding thread_kill
  kill_one_one k s e =
      let low : ltb signo 1 ≡ false = ground arith in
      let high : ltb 31 signo ≡ false = ground arith in
      simp (thread.not_null, thread.at, e, low, high, ==-refl)

  -- One for another many-many thread becomes pending there and the others that were pending stay so;
  -- nothing is sent. The target's lock is free again, and the interrupts of a many-many caller are on.
  pub kill_many_many :
      (x : Contexts) (c : Thread)
      → t.members ≡ many_many x
      → Holds w w.self c
      → (w.self == p) ≡ false
      → t.mem_lock ≡ 1
      → x.pend_sig < 2 ^ 32
      → Returns (Noted w p t x c signo) (thread_kill p signo w)
  unfolding thread_kill lock_acquire lock_release
  kill_many_many x c e caller ne free fits =
      let low : ltb signo 1 ≡ false = ground arith in
      let high : ltb 31 signo ≡ false = ground arith in
      let en : (p == w.self) ≡ false = ==_sym p w.self ∙ ne in
      let mask : ℕ = td_set_sig_pending x.pend_sig signo in
      let fits' : mask < 2 ^ 32 = td_set_sig_pending-lt x.pend_sig signo lo (omega arith) fits in
      elim (members-cases c.members) [
        | inl (k, s, e') ↦
            simp
              (
                thread.not_null, thread.at, caller.not_null, caller.at, e, e', ne, en, free, low,
                high, ==-refl,
              )
              (record {
                returned = refl;
                mask = mask;
                at = simp (==-refl, free) refl;
                fits = fits';
                pending =
                    λ a l h. signals-td_set_sig_pending x.pend_sig signo a lo (omega arith) l h;
                caller =
                    simp (ne, caller.at, e')
                      (ap (λ (m : Members). some (record c { members = m })) e');
                same = λ a n n'. simp (n, n') refl;
                lists = (refl, refl, refl);
                events = refl;
              })
        | inr (y, e') ↦
            simp
              (
                thread.not_null, thread.at, caller.not_null, caller.at, e, e', ne, en, free, low,
                high, ==-refl,
              )
              (record {
                returned = refl;
                mask = mask;
                at = simp (==-refl, en, free) refl;
                fits = fits';
                pending =
                    λ a l h. signals-td_set_sig_pending x.pend_sig signo a lo (omega arith) l h;
                caller = simp (ne, ==-refl, e') refl;
                same = λ a n n'. simp (n, n') refl;
                lists = (refl, refl, refl);
                events = refl;
              })
      ]
