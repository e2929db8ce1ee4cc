-- ===== src/Hybrid/Sched.antt =====
-- hybrid/src/mmsched.c: what a kernel thread does between two many-many threads. A one-one thread never
-- stands on the ready list.
pub mod Post
pub mod Turn
use libthreads_c.Base.{
  ℕ, zero, suc, Bool, true, false, Option, none, some, not, ◌==◌, if◌then◌else◌,
}
use libthreads_c.Mods.Lock.{lock_acquire, lock_release}
use libthreads_c.ManyMany.Pending.{td_is_sig_pending, td_get_sig_pending}
use libthreads_c.ManyMany.Sched.{mmsched_time_slice_ms}
pub use libthreads_c.ManyMany.Sched.{Next, loop, repeat}
use libthreads_c.Hybrid.World.{
  Ptr, ThreadState, running, exited, joined, wait_join, spins, fault, Cmd, pure, ◌>>=◌, ◌>>◌,
  modify, load_thread, load_contexts, change_contexts, emit, signal_sent, futex_woken,
}
use libthreads_c.Hybrid.Descr.{
  thread_self, is_running, td_is_one_one, td_mm_ret_cxt, td_set_over, td_get_join_thread,
  td_has_join_thread, td_mm_timer_init, td_mm_timer_start, td_mm_timer_stop, td_lock, td_unlock,
}
use libthreads_c.Hybrid.Ready.{
  mmrll_enqueue, mmrll_dequeue, mmrll_is_empty, mmrll_lock, mmrll_unlock,
}

abbrev pub set_fs : Ptr → Cmd (Unit {0})
set_fs addr = modify (λ w. record w { self = addr })

-- The handler of the timer's signal.
unfoldable pub mmsched_yield : Cmd (Unit {0})
mmsched_yield = do
  thread ← thread_self
  m ← load_contexts thread
  if not (m.intr_off == 0)
      then (do td_mm_timer_stop thread; td_mm_timer_start thread)
      else td_mm_ret_cxt thread

-- `none` is the `continue` of the dispatcher's loop.
unfoldable pub get_next_thread : Cmd (Option Ptr)
unfolding mmrll_lock mmrll_is_empty mmrll_unlock mmrll_dequeue
get_next_thread = do
  mmrll_lock
  empty ← mmrll_is_empty
  if empty
      then (do mmrll_unlock; pure none)
      else do thread ← mmrll_dequeue; mmrll_unlock; pure (some thread)

-- The loop over the mask; the fuel is one more than the bits of an `int`.
unfoldable pub send_loop : ℕ → Ptr → Cmd (Unit {0})
unfolding td_is_sig_pending td_get_sig_pending
send_loop zero thread w = spins
send_loop (suc n) thread w =
    let again = send_loop n thread in
    (do
      m ← load_contexts thread
      if td_is_sig_pending m.pend_sig
          then (do
            change_contexts thread
                (λ m'. record m' { pend_sig = (td_get_sig_pending m.pend_sig).1 })
            (λ w'. emit (signal_sent w'.tid (td_get_sig_pending m.pend_sig).0) w')
            again)
          else pure tt)
      w

unfoldable pub send_pending_signals : Ptr → Cmd (Unit {0})
send_pending_signals thread = do td_lock thread; send_loop 33 thread; td_unlock thread

-- From the choice of a thread to the label `repeat`.
unfoldable pub prepare : Ptr → Cmd (Unit {0})
prepare thread = do
  t ← load_thread thread
  (if is_running t.state then send_pending_signals thread else pure tt)
  td_mm_timer_init thread mmsched_time_slice_ms

-- From the label `repeat` to the switch to the thread.
unfoldable pub enter : Ptr → Cmd (Unit {0})
enter thread = do set_fs thread; td_mm_timer_start thread

-- `pending` is what sig_is_pending returns.
unfoldable pub post_schedule_running_action : Bool → Ptr → Cmd Next
unfolding mmrll_lock mmrll_enqueue mmrll_unlock
post_schedule_running_action pending thread =
    if pending then pure repeat else do mmrll_lock; mmrll_enqueue thread; mmrll_unlock; pure loop

unfoldable pub post_schedule_exited_action : Ptr → Cmd Next
unfolding mmrll_lock mmrll_enqueue mmrll_unlock
post_schedule_exited_action thread = do
  td_lock thread
  td_set_over thread
  joining ← td_has_join_thread thread
  if joining
      then (do
        join_thread ← td_get_join_thread thread
        one_one ← td_is_one_one join_thread
        if one_one then (do td_unlock thread; emit (futex_woken thread); pure loop) else (do
          td_unlock thread
          mmrll_lock
          join_thread' ← td_get_join_thread thread
          mmrll_enqueue join_thread'
          mmrll_unlock
          pure loop))
      else (do td_unlock thread; pure loop)

abbrev pub post_action : ThreadState → Bool → Ptr → Ptr → Cmd Next
post_action running pending thread wait_join_td = post_schedule_running_action pending thread
post_action wait_join pending thread wait_join_td = do td_unlock wait_join_td; pure loop
post_action exited pending thread wait_join_td = post_schedule_exited_action thread
post_action joined pending thread wait_join_td = pure loop

-- From the return of the thread's context to the end of the loop's body.
unfoldable pub post_schedule : Ptr → Bool → Ptr → Cmd Next
unfolding post_schedule_running_action post_schedule_exited_action
post_schedule old_fs pending thread = do
  td_mm_timer_stop thread
  set_fs old_fs
  t ← load_thread thread
  post_action t.state pending thread t.wait_join_td

abbrev pub chosen : Option Ptr → Cmd Ptr
chosen none w = fault
chosen (some thread) w = (do prepare thread; enter thread; pure thread) w

-- One pass of `_mmsched_dispatch` up to the switch to the thread. A pass that finds no thread does not end
-- here.
unfoldable pub switch_to_next : Cmd Ptr
unfolding get_next_thread prepare enter
switch_to_next = do next ← get_next_thread; chosen next
