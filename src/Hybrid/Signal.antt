-- ===== src/Hybrid/Signal.antt =====
-- hybrid/src/thread_sig.c: masking signals, and sending one to a thread of either type.
pub mod Laws
use libthreads_c.Base.{ℕ, Bool, Option, none, some, ◌||◌, ltb, ◌==◌, if◌then◌else◌}
use libthreads_c.Mods.Timer.{sigalrm}
use libthreads_c.ManyMany.Pending.{td_set_sig_pending}
use libthreads_c.ManyMany.Signal.{sig_low, sig_high, sigdelset}
use libthreads_c.Hybrid.World.{
  Ptr, null, einval, Status, fail, success, one_one, many_many, Members, Cmd, pure, ◌>>=◌, ◌>>◌,
  load_thread, change_contexts, emit, sigprocmask, signal_sent, ok, fault,
}
use libthreads_c.Hybrid.Descr.{
  thread_self, set_errno, td_is_one_one, td_mm_disable_intr, td_mm_enable_intr, td_lock, td_unlock,
}
use libthreads_c.Hybrid.Control.{if_many_many}

unfoldable pub thread_sigmask : ℕ → Option (ℕ → Bool) → Cmd Status
thread_sigmask how set = do
  thread ← thread_self
  if_many_many thread (td_mm_disable_intr thread)
  emit (sigprocmask how (sigdelset set sigalrm))
  if_many_many thread (td_mm_enable_intr thread)
  pure success

abbrev pub ktid_of : Members → Cmd ℕ
ktid_of (one_one ktid stack) w = ok ktid w
ktid_of (many_many m) w = fault

-- `signo` is an `int` compared with unsigned constants: its bit pattern is compared.
unfoldable pub thread_kill : Ptr → ℕ → Cmd Status
unfolding td_set_sig_pending
thread_kill thread signo =
    if (thread == null) || (ltb signo sig_low || ltb sig_high signo)
    then (do set_errno einval; pure fail)
    else do
      curr_thread ← thread_self
      kernel ← td_is_one_one thread
      if kernel
          then (do
            t ← load_thread thread
            ktid ← ktid_of t.members
            emit (signal_sent ktid signo)
            pure success)
          else (do
            if_many_many curr_thread (td_mm_disable_intr curr_thread)
            td_lock thread
            change_contexts thread
                (λ m. record m { pend_sig = td_set_sig_pending m.pend_sig signo })
            td_unlock thread
            if_many_many curr_thread (td_mm_enable_intr curr_thread)
            pure success)
