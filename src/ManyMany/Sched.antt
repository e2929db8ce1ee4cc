-- ===== src/ManyMany/Sched.antt =====
-- many-many/src/mmsched.c: what a kernel thread does between two user threads.
-- The context that a user thread saved is a function from the world in which it is resumed.
pub mod Send
pub mod Post
pub mod Turn
use libthreads_c.Base.{
  ℕ, zero, suc, Bool, true, false, Option, none, some, not, ◌==◌, if◌then◌else◌,
}
use libthreads_c.Mods.Lock.{lock_acquire, lock_release}
use libthreads_c.Mods.Timer.{timer_set}
use libthreads_c.ManyMany.World.{
  Ptr, null, ThreadState, running, exited, joined, wait_join, wait_mutex, Thread, World, Run, spins,
  Cmd, pure, ◌>>=◌, ◌>>◌, modify, load_thread, change_thread, put_thread, emit, Event, signal_sent,
}
use libthreads_c.ManyMany.Descr.{
  thread_self, is_running, td_ret_cxt, td_set_over, td_get_joining, td_has_joining, td_timer_init,
  td_timer_start, td_timer_stop, td_lock, td_unlock,
}
use libthreads_c.ManyMany.Ready.{
  mmrll_enqueue, mmrll_dequeue, mmrll_is_empty, mmrll_lock, mmrll_unlock,
}
use libthreads_c.ManyMany.Mutex.{mut_unlock}
use libthreads_c.ManyMany.Pending.{td_is_sig_pending, td_get_sig_pending}

abbrev pub mmsched_time_slice_ms : ℕ
mmsched_time_slice_ms = 10

abbrev pub set_fs : Ptr → Cmd (Unit {0})
set_fs addr = modify (λ w. record w { self = addr })

-- The handler of the timer's signal: with interrupts off it starts the slice again, else it gives
-- the control back.
unfoldable pub mmsched_yield : Cmd (Unit {0})
mmsched_yield = do
  thread ← thread_self
  t ← load_thread thread
  if not (t.intr_off == 0)
      then (do td_timer_stop thread; td_timer_start thread)
      else td_ret_cxt thread

-- `none` is the `continue` of the dispatcher's loop.
unfoldable pub get_next_thread : Cmd (Option Ptr)
unfolding mmrll_lock mmrll_is_empty mmrll_unlock mmrll_dequeue
get_next_thread = do
  mmrll_lock
  empty ← mmrll_is_empty
  if empty
      then (do mmrll_unlock; pure none)
      else do thread ← mmrll_dequeue; mmrll_unlock; pure (some thread)

-- The loop over the mask; the fuel is one more than the bits of an `int`.
unfoldable pub send_loop : ℕ → Ptr → Cmd (Unit {0})
unfolding td_is_sig_pending td_get_sig_pending
send_loop zero thread w = spins
send_loop (suc n) thread w =
    let again = send_loop n thread in
    (do
      t ← load_thread thread
      if td_is_sig_pending t.pend_sig
          then (do
            modify (
                put_thread thread
                  (some (record t { pend_sig = (td_get_sig_pending t.pend_sig).1 })))
            emit (signal_sent w.tid (td_get_sig_pending t.pend_sig).0)
            again)
          else pure tt)
      w

unfoldable pub send_pending_signals : Ptr → Cmd (Unit {0})
send_pending_signals thread = do td_lock thread; send_loop 33 thread; td_unlock thread

-- From the choice of a thread to the label `repeat`.
unfoldable pub prepare : Ptr → Cmd (Unit {0})
prepare thread = do
  t ← load_thread thread
  (if is_running t.state then send_pending_signals thread else pure tt)
  td_timer_init thread mmsched_time_slice_ms

-- From the label `repeat` to the switch to the thread.
unfoldable pub enter : Ptr → Cmd (Unit {0})
enter thread = do set_fs thread; td_timer_start thread

-- Where the dispatcher goes on: at the head of its loop, or at `repeat`.
pub data Next : Type 0 where
  loop repeat : Next

-- `pending` is what sig_is_pending returns.
unfoldable pub post_schedule_running_action : Bool → Ptr → Cmd Next
unfolding mmrll_lock mmrll_enqueue mmrll_unlock
post_schedule_running_action pending thread =
    if pending then pure repeat else do mmrll_lock; mmrll_enqueue thread; mmrll_unlock; pure loop

unfoldable pub post_schedule_exited_action : Ptr → Cmd Next
unfolding mmrll_lock mmrll_enqueue mmrll_unlock
post_schedule_exited_action thread = do
  td_lock thread
  td_set_over thread
  joining ← td_has_joining thread
  if joining
      then (do
        td_unlock thread
        mmrll_lock
        join_thread ← td_get_joining thread
        mmrll_enqueue join_thread
        mmrll_unlock
        pure loop)
      else (do td_unlock thread; pure loop)

abbrev pub post_action : ThreadState → Bool → Ptr → Ptr → Cmd Next
post_action running pending thread wait_for = post_schedule_running_action pending thread
post_action wait_join pending thread wait_for = do td_unlock wait_for; pure loop
post_action wait_mutex pending thread wait_for = do mut_unlock wait_for; pure loop
post_action exited pending thread wait_for = post_schedule_exited_action thread
post_action joined pending thread wait_for = pure loop

-- From the return of the thread's context to the end of the loop's body.
unfoldable pub post_schedule : Ptr → Bool → Ptr → Cmd Next
unfolding post_schedule_running_action post_schedule_exited_action mut_unlock
post_schedule old_fs pending thread = do
  td_timer_stop thread
  set_fs old_fs
  t ← load_thread thread
  post_action t.state pending thread t.wait_for
