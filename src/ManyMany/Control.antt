-- ===== src/ManyMany/Control.antt =====
-- many-many/src/thread_cntl.c: create, join, exit, yield, equal and once.
-- `Thread *thread` is whether the pointer is valid, and the handle stored there is part of the
-- result; so is what `thread_join` stores through `ret`.
pub mod Join
pub mod Create
pub mod Exit
pub mod Once
pub mod Protocol
use libthreads_c.Base.{
  ℕ, ◌+◌, ◌%◌, ◌^◌, Bool, true, false, Option, none, some, ◌||◌, not, ◌==◌, if◌then◌else◌, update,
}
use libthreads_c.Mods.Lock.{lock_acquire, lock_release}
use libthreads_c.Mods.Utils.{minus_one, atomic_cas}
use libthreads_c.ManyMany.World.{
  Ptr, null, ThreadState, running, exited, joined, wait_join, Errno, einval, eagain, edeadlk,
  Status, fail, success, Thread, World, Run, leave, Cmd, pure, ◌>>=◌, ◌>>◌, modify, load_thread,
  change_thread, or_spins, assert,
}
use libthreads_c.ManyMany.Descr.{
  thread_self, set_errno, td_set_state, is_exited, is_joined, td_is_joined, td_is_exited, td_alloc,
  td_free, td_init, td_ret_cxt, td_exit_cxt, td_is_over, td_get_joining, td_has_joining,
  td_set_joining, td_set_wait_for, td_disable_intr, td_enable_intr, td_lock, td_unlock,
}
use libthreads_c.ManyMany.Ready.{mmrll_enqueue, mmrll_lock, mmrll_unlock}

-- `int nxt_utid` wraps at 32 bits.
unfoldable pub get_nxt_utid : Cmd ℕ
unfolding lock_acquire lock_release
get_nxt_utid w =
    (do
      lock' ← or_spins (lock_acquire w.nxt_utid_lk)
      modify (λ w. record w { nxt_utid_lk = lock'; nxt_utid = (w.nxt_utid + 1) % 2 ^ 32 })
      modify (λ w. record w { nxt_utid_lk = lock_release w.nxt_utid_lk })
      pure w.nxt_utid)
      w

-- `routine start arg` is the application's code at `start`. At its end the context's link, the
-- return context, goes on.
unfoldable pub many_many_start : (Ptr → Ptr → Cmd Ptr) → Cmd (Unit {0})
many_many_start routine = do
  thread ← thread_self
  t ← load_thread thread
  ret ← routine t.start t.arg
  change_thread thread (λ t. record t { ret = ret })
  td_disable_intr thread
  td_set_state thread exited
  λ w. leave w

abbrev pub is_null : Ptr → Bool
is_null p = p == null

unfoldable pub thread_create : Bool → Ptr → Ptr → Cmd (Status × Ptr)
unfolding get_nxt_utid mmrll_lock mmrll_unlock mmrll_enqueue
thread_create thread start arg =
    if not thread || is_null start then (do set_errno einval; pure (fail, null)) else do
      curr_thread ← thread_self
      td ← td_alloc
      if is_null td then (do set_errno eagain; pure (fail, td)) else do
        utid ← get_nxt_utid
        td_init td utid start arg
        td_disable_intr curr_thread
        mmrll_lock
        mmrll_enqueue td
        mmrll_unlock
        td_enable_intr curr_thread
        pure (success, td)

-- From the return of the wait to the end of thread_join.
unfoldable pub join_finish : Ptr → Ptr → Bool → Cmd (Status × Option Ptr)
join_finish curr_thread thread want_ret = do
  td_set_state curr_thread running
  td_set_wait_for curr_thread null
  td_enable_intr curr_thread
  t ← load_thread thread
  td_set_state thread joined
  td_free thread
  pure (success, if want_ret then some t.ret else none)

unfoldable pub thread_join : Ptr → Bool → Cmd (Status × Option Ptr)
unfolding join_finish
thread_join thread want_ret =
    if is_null thread then (do set_errno einval; pure (fail, none)) else do
      done ← td_is_joined thread
      if done then (do set_errno einval; pure (fail, none)) else do
        curr_thread ← thread_self
        waiter ← (if curr_thread == thread then pure thread else td_get_joining curr_thread)
        if waiter == thread then (do set_errno edeadlk; pure (fail, none)) else do
          td_disable_intr curr_thread
          td_lock thread
          taken ← td_has_joining thread
          if taken
              then (do
                td_enable_intr curr_thread
                td_unlock thread
                set_errno einval
                pure (fail, none))
              else do
                td_set_joining thread curr_thread
                td_set_wait_for curr_thread thread
                td_set_state curr_thread wait_join
                over ← td_is_over thread
                if over then td_unlock thread else td_ret_cxt curr_thread
                join_finish curr_thread thread want_ret

unfoldable pub thread_exit : Ptr → Cmd (Unit {0})
thread_exit ret = do
  thread ← thread_self
  t ← load_thread thread
  if is_exited t.state || is_joined t.state then pure tt else do
    change_thread thread (λ t. record t { ret = ret })
    td_disable_intr thread
    td_set_state thread exited
    td_exit_cxt thread

unfoldable pub thread_yield : Cmd Status
thread_yield = do
  thread ← thread_self
  td_disable_intr thread
  td_ret_cxt thread
  td_enable_intr thread
  pure success

unfoldable pub thread_equal : Ptr → Ptr → Bool
thread_equal thread1 thread2 = thread1 == thread2

-- THREAD_ONCE_INIT
abbrev pub thread_once_init : ℕ
thread_once_init = minus_one

-- `assert(addr)` and the compare and exchange on a word of the application.
unfoldable pub cas_word : Ptr → ℕ → ℕ → Cmd Bool
cas_word addr old_val new_val w =
    (do
      assert (not (addr == null))
      let (done, word) = atomic_cas (w.words addr) old_val new_val
      modify (λ w. record w { words = update w.words addr word })
      pure done)
      w

-- `init_routine` is `none` for NULL, else the application's code.
unfoldable pub thread_once : Ptr → Option (Cmd (Unit {0})) → Cmd Status
unfolding cas_word
thread_once once_control none = do set_errno einval; pure fail
thread_once once_control (some init_routine) = do
  first ← cas_word once_control minus_one 0
  if first then (do init_routine; pure success) else do set_errno einval; pure fail
