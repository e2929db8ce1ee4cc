-- ===== src/OneOne/Control.antt =====
-- one-one/src/thread_cntl.c and thread_sig.c: the calls of one thread, by the conventions of many-many.
pub mod Laws
pub mod Life
mod Examples
use libthreads_c.Base.{ℕ, Bool, Option, none, some, ◌||◌, not, ◌==◌, if◌then◌else◌, update}
use libthreads_c.Mods.Utils.{minus_one, atomic_cas}
use libthreads_c.ManyMany.Descr.{is_exited, is_joined}
use libthreads_c.OneOne.World.{
  Ptr, null, running, exited, joined, wait_join, einval, eagain, edeadlk, Status, fail, success,
  Cmd, pure, ◌>>=◌, ◌>>◌, modify, assert, load_thread, change_thread, emit, signal_sent,
  sigprocmask, yielded, thread_self, set_errno, td_set_state, td_alloc, td_free, td_init, td_create,
  kernel_thread_ends, futex_wait, td_lock, td_unlock,
}

-- `routine start arg` is the application's code at `start`, whose result td_launch stores.
unfoldable pub one_one_start : (Ptr → Ptr → Cmd Ptr) → Cmd (Unit {0})
one_one_start routine = do
  thread ← thread_self
  t ← load_thread thread
  ret ← routine t.start t.arg
  change_thread thread (λ t. record t { ret = ret })
  td_set_state thread exited
  kernel_thread_ends thread

unfoldable pub thread_create : Bool → Ptr → Ptr → Cmd (Status × Ptr)
unfolding td_alloc
thread_create thread start arg =
    if not thread || (start == null) then (do set_errno einval; pure (fail, null)) else do
      td ← td_alloc
      if td == null then (do set_errno eagain; pure (fail, td)) else do
        td_init td start arg
        ktid ← td_create td
        if ktid == minus_one then (do set_errno eagain; pure (fail, td)) else pure (success, td)

-- From the end of the wait to the end of thread_join.
unfoldable pub join_finish : Ptr → Bool → Cmd (Status × Option Ptr)
join_finish thread want_ret = do
  td_set_state thread joined
  t ← load_thread thread
  td_free thread
  pure (success, if want_ret then some t.ret else none)

unfoldable pub thread_join : Ptr → Bool → Cmd (Status × Option Ptr)
unfolding join_finish
thread_join thread want_ret =
    if thread == null then (do set_errno einval; pure (fail, none)) else do
      target ← load_thread thread
      if is_joined target.state then (do set_errno einval; pure (fail, none)) else do
        curr_thread ← thread_self
        waiter ←
            (if thread == curr_thread
              then pure thread
              else (do c ← load_thread curr_thread; pure c.join_td))
        if waiter == thread then (do set_errno edeadlk; pure (fail, none)) else do
          td_lock thread
          t ← load_thread thread
          if not (t.join_td == null)
              then (do td_unlock thread; set_errno einval; pure (fail, none))
              else do
                change_thread thread (λ u. record u { join_td = curr_thread })
                (if t.wait == 0 then td_unlock thread else (do
                  td_unlock thread
                  td_set_state curr_thread wait_join
                  futex_wait thread t.ktid
                  td_set_state curr_thread running))
                join_finish thread want_ret

unfoldable pub thread_exit : Ptr → Cmd (Unit {0})
thread_exit ret = do
  thread ← thread_self
  change_thread thread (λ t. record t { ret = ret })
  td_set_state thread exited
  kernel_thread_ends thread

unfoldable pub thread_yield : Cmd Status
thread_yield = do emit yielded; pure success

unfoldable pub thread_equal : Ptr → Ptr → Bool
thread_equal thread1 thread2 = thread1 == thread2

-- `assert(addr)` and the compare and exchange on a word of the application.
unfoldable pub cas_word : Ptr → ℕ → ℕ → Cmd Bool
cas_word addr old_val new_val w =
    (do
      assert (not (addr == null))
      let (done, word) = atomic_cas (w.words addr) old_val new_val
      modify (λ w. record w { words = update w.words addr word })
      pure done)
      w

-- `init_routine` is `none` for NULL, else the application's code.
unfoldable pub thread_once : Ptr → Option (Cmd (Unit {0})) → Cmd Status
unfolding cas_word
thread_once once_control none = do set_errno einval; pure fail
thread_once once_control (some init_routine) = do
  first ← cas_word once_control minus_one 0
  if first then (do init_routine; pure success) else do set_errno einval; pure fail

unfoldable pub thread_sigmask : ℕ → Option (ℕ → Bool) → Cmd Status
thread_sigmask how set = do emit (sigprocmask how set); pure success

-- What tgkill answers is not looked at.
unfoldable pub thread_kill : Ptr → ℕ → Cmd Status
thread_kill thread sig_num = if thread == null then (do set_errno einval; pure fail) else do
  t ← load_thread thread
  if is_exited t.state || is_joined t.state
      then (do set_errno einval; pure fail)
      else do emit (signal_sent t.ktid sig_num); pure success
