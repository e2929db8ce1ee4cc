-- ===== src/ManyMany/Signal.antt =====
-- many-many/src/thread_sig.c: masking signals, and sending one to a thread.
pub mod Laws
pub mod Delivery
use libthreads_c.Base.{
  ℕ, Bool, true, false, Option, none, some, ◌||◌, ltb, ◌==◌, if◌then◌else◌, update,
}
use libthreads_c.Mods.Lock.{lock_acquire, lock_release}
use libthreads_c.Mods.Timer.{sigalrm}
use libthreads_c.ManyMany.World.{
  Ptr, null, Errno, einval, Status, fail, success, Thread, World, Cmd, pure, ◌>>=◌, ◌>>◌,
  change_thread, emit, Event, sigprocmask,
}
use libthreads_c.ManyMany.Descr.{
  thread_self, set_errno, td_disable_intr, td_enable_intr, td_lock, td_unlock,
}
use libthreads_c.ManyMany.Pending.{td_set_sig_pending}

abbrev pub sig_low : ℕ
sig_low = 1

abbrev pub sig_high : ℕ
sig_high = 31

-- A signal set is a test on signal numbers, NULL is `none`.
abbrev pub sigdelset : Option (ℕ → Bool) → ℕ → Option (ℕ → Bool)
sigdelset none signo = none
sigdelset (some set) signo = some (update set signo false)

unfoldable pub thread_sigmask : ℕ → Option (ℕ → Bool) → Cmd Status
thread_sigmask how set = do
  thread ← thread_self
  td_disable_intr thread
  emit (sigprocmask how (sigdelset set sigalrm))
  td_enable_intr thread
  pure success

-- `signo` is an `int` compared with unsigned constants: its bit pattern is compared.
unfoldable pub thread_kill : Ptr → ℕ → Cmd Status
unfolding td_set_sig_pending
thread_kill thread signo =
    if (thread == null) || (ltb signo sig_low || ltb sig_high signo)
    then (do set_errno einval; pure fail)
    else do
      td_disable_intr thread
      td_lock thread
      change_thread thread (λ t. record t { pend_sig = td_set_sig_pending t.pend_sig signo })
      td_unlock thread
      td_enable_intr thread
      pure success
