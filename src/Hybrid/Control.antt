-- ===== src/Hybrid/Control.antt =====
-- hybrid/src/thread_cntl.c: the calls of one thread, with what they do by the types of the threads.
-- The conventions are those of many-many: `Thread *thread` is whether the pointer is valid, the handle stored
-- there is part of the result, and so is what thread_join stores through `ret`.
pub mod Create
pub mod Join
pub mod Protocol
pub mod Exit
use libthreads_c.Base.{
  ℕ, ◌+◌, ◌%◌, ◌^◌, Bool, true, false, Option, none, some, ◌||◌, ◌&&◌, not, ◌==◌, if◌then◌else◌,
  update,
}
use libthreads_c.Mods.Lock.{lock_acquire, lock_release}
use libthreads_c.Mods.Utils.{minus_one, atomic_cas}
use libthreads_c.Hybrid.World.{
  Ptr, null, running, exited, joined, wait_join, Errno, einval, eagain, edeadlk, Status, fail,
  success, Thread, leave, Cmd, pure, ◌>>=◌, ◌>>◌, modify, load_thread, change_thread, or_spins,
  assert, emit, yielded,
}
use libthreads_c.Hybrid.Descr.{
  thread_self, set_errno, td_set_state, is_exited, is_joined, td_is_joined, td_is_many_many,
  td_is_one_one, td_oo_alloc, td_mm_alloc, td_free, td_oo_init, td_mm_init, td_oo_create,
  td_mm_ret_cxt, td_mm_exit_cxt, kernel_thread_ends, td_is_over, futex_wait, spin_while_waiting,
  wait_val_of, td_has_join_thread, td_get_join_thread, td_set_join, td_clear_wait_join_thread,
  td_mm_disable_intr, td_mm_enable_intr, td_lock, td_unlock,
}
use libthreads_c.Hybrid.Ready.{mmrll_enqueue, mmrll_lock, mmrll_unlock}

-- THREAD_TYPE_ONE_ONE and THREAD_TYPE_MANY_MANY
abbrev pub type_one_one : ℕ
type_one_one = 0

abbrev pub type_many_many : ℕ
type_many_many = 1

-- `int nxt_utid` wraps at 32 bits.
unfoldable pub get_nxt_utid : Cmd ℕ
unfolding lock_acquire lock_release
get_nxt_utid w =
    (do
      lock' ← or_spins (lock_acquire w.nxt_utid_lk)
      modify (λ w. record w { nxt_utid_lk = lock'; nxt_utid = (w.nxt_utid + 1) % 2 ^ 32 })
      modify (λ w. record w { nxt_utid_lk = lock_release w.nxt_utid_lk })
      pure w.nxt_utid)
      w

-- `if (td_is_many_many(curr_thread))` around one command
abbrev pub if_many_many : Ptr → Cmd (Unit {0}) → Cmd (Unit {0})
if_many_many curr_thread m = do
  many_many ← td_is_many_many curr_thread
  if many_many then m else pure tt

abbrev pub make_ready : Ptr → Cmd (Unit {0})
unfolding mmrll_lock mmrll_unlock mmrll_enqueue
make_ready thread = do mmrll_lock; mmrll_enqueue thread; mmrll_unlock

-- What a one-one thread does for the thread that joins it, in thread_exit and after its start routine.
unfoldable pub one_one_leaves : Ptr → Cmd (Unit {0})
unfolding mmrll_lock mmrll_unlock mmrll_enqueue
one_one_leaves thread = do
  td_lock thread
  joining ← td_has_join_thread thread
  if joining
      then (do
        join_thread ← td_get_join_thread thread
        many_many ← td_is_many_many join_thread
        if many_many
            then (do
              td_unlock thread
              mmrll_lock
              join_thread' ← td_get_join_thread thread
              mmrll_enqueue join_thread'
              mmrll_unlock)
            else pure tt)
      else td_unlock thread

-- `routine start arg` is the application's code at `start`, whose result td_launch stores.
abbrev pub td_launch : (Ptr → Ptr → Cmd Ptr) → Ptr → Cmd (Unit {0})
td_launch routine thread = do
  t ← load_thread thread
  ret ← routine t.start t.arg
  change_thread thread (λ t. record t { ret = ret })

unfoldable pub one_one_start : (Ptr → Ptr → Cmd Ptr) → Cmd (Unit {0})
unfolding one_one_leaves
one_one_start routine = do
  thread ← thread_self
  td_launch routine thread
  td_set_state thread exited
  one_one_leaves thread
  kernel_thread_ends thread

-- At its end the context's link, the return context, goes on.
unfoldable pub many_many_start : (Ptr → Ptr → Cmd Ptr) → Cmd (Unit {0})
many_many_start routine = do
  thread ← thread_self
  td_launch routine thread
  td_mm_disable_intr thread
  td_set_state thread exited
  λ w. leave w

unfoldable pub create_one_one : Ptr → Ptr → Cmd (Status × Ptr)
unfolding get_nxt_utid td_oo_alloc
create_one_one start arg = do
  td ← td_oo_alloc
  if td == null then (do set_errno eagain; pure (fail, td)) else do
    utid ← get_nxt_utid
    td_oo_init td utid start arg
    ktid ← td_oo_create td
    if ktid == minus_one then (do set_errno eagain; pure (fail, td)) else pure (success, td)

unfoldable pub create_many_many : Ptr → Ptr → Ptr → Cmd (Status × Ptr)
unfolding get_nxt_utid td_mm_alloc mmrll_lock mmrll_unlock mmrll_enqueue
create_many_many curr_thread start arg = do
  td ← td_mm_alloc
  if td == null then (do set_errno eagain; pure (fail, td)) else do
    utid ← get_nxt_utid
    td_mm_init td utid start arg
    if_many_many curr_thread (td_mm_disable_intr curr_thread)
    mmrll_lock
    mmrll_enqueue td
    mmrll_unlock
    if_many_many curr_thread (td_mm_enable_intr curr_thread)
    pure (success, td)

unfoldable pub thread_create : Bool → Ptr → Ptr → ℕ → Cmd (Status × Ptr)
unfolding create_one_one create_many_many
thread_create thread start arg type =
    if not thread
      || ((start == null) || (not (type == type_one_one) && not (type == type_many_many)))
    then (do set_errno einval; pure (fail, null))
    else do
      curr_thread ← thread_self
      if type == type_one_one
          then create_one_one start arg
          else create_many_many curr_thread start arg

-- From the end of the wait to the end of thread_join.
unfoldable pub join_finish : Ptr → Ptr → Bool → Cmd (Status × Option Ptr)
join_finish curr_thread thread want_ret = do
  td_set_state curr_thread running
  td_clear_wait_join_thread curr_thread
  if_many_many curr_thread (td_mm_enable_intr curr_thread)
  t ← load_thread thread
  td_set_state thread joined
  td_free thread
  pure (success, if want_ret then some t.ret else none)

-- What a many-many caller does once it is resumed: if the target is one-one it waits for the wait word.
unfoldable pub after_switch : Ptr → Cmd (Unit {0})
after_switch thread = do
  one_one ← td_is_one_one thread
  if one_one then spin_while_waiting thread else pure tt

-- What the caller does while the target is not over: a one-one thread waits in the kernel, a many-many
-- thread goes to the dispatcher.
unfoldable pub join_wait : Ptr → Ptr → Cmd (Unit {0})
unfolding after_switch
join_wait curr_thread thread = do
  one_one ← td_is_one_one curr_thread
  if one_one
      then (do td_unlock thread; t ← load_thread thread; futex_wait thread (wait_val_of t.members))
      else (do td_mm_ret_cxt curr_thread; after_switch thread)

unfoldable pub thread_join : Ptr → Bool → Cmd (Status × Option Ptr)
unfolding join_finish join_wait
thread_join thread want_ret =
    if thread == null then (do set_errno einval; pure (fail, none)) else do
      done ← td_is_joined thread
      if done then (do set_errno einval; pure (fail, none)) else do
        curr_thread ← thread_self
        waiter ← (if curr_thread == thread then pure thread else td_get_join_thread curr_thread)
        if waiter == thread then (do set_errno edeadlk; pure (fail, none)) else do
          if_many_many curr_thread (td_mm_disable_intr curr_thread)
          td_lock thread
          taken ← td_has_join_thread thread
          if taken
              then (do
                if_many_many curr_thread (td_mm_enable_intr curr_thread)
                td_unlock thread
                set_errno einval
                pure (fail, none))
              else do
                td_set_join thread curr_thread
                td_set_state curr_thread wait_join
                over ← td_is_over thread
                if over then td_unlock thread else join_wait curr_thread thread
                join_finish curr_thread thread want_ret

unfoldable pub thread_exit : Ptr → Cmd (Unit {0})
unfolding one_one_leaves
thread_exit ret = do
  thread ← thread_self
  t ← load_thread thread
  if is_exited t.state || is_joined t.state then pure tt else do
    change_thread thread (λ t. record t { ret = ret })
    if_many_many thread (td_mm_disable_intr thread)
    td_set_state thread exited
    one_one ← td_is_one_one thread
    if one_one then (do one_one_leaves thread; kernel_thread_ends thread) else td_mm_exit_cxt thread

-- sched_yield lets another kernel thread run, which changes nothing here by itself.
unfoldable pub thread_yield : Cmd Status
thread_yield = do
  thread ← thread_self
  one_one ← td_is_one_one thread
  if one_one then (do emit yielded; pure success) else (do
    td_mm_disable_intr thread
    td_mm_ret_cxt thread
    td_mm_enable_intr thread
    pure success)

unfoldable pub thread_equal : Ptr → Ptr → Bool
thread_equal thread1 thread2 = thread1 == thread2

-- `assert(addr)` and the compare and exchange on a word of the application.
unfoldable pub cas_word : Ptr → ℕ → ℕ → Cmd Bool
cas_word addr old_val new_val w =
    (do
      assert (not (addr == null))
      let (done, word) = atomic_cas (w.words addr) old_val new_val
      modify (λ w. record w { words = update w.words addr word })
      pure done)
      w

-- `init_routine` is `none` for NULL, else the application's code.
unfoldable pub thread_once : Ptr → Option (Cmd (Unit {0})) → Cmd Status
unfolding cas_word
thread_once once_control none = do set_errno einval; pure fail
thread_once once_control (some init_routine) = do
  first ← cas_word once_control minus_one 0
  if first then (do init_routine; pure success) else do set_errno einval; pure fail
