-- ===== src/ManyMany/Descr.antt =====
-- many-many/src/thread_descr.h and thread_errno.c: the operations on one thread descriptor.
use libthreads_c.Base.{ℕ, Bool, true, false, none, some, ◌||◌, not, ◌==◌}
use libthreads_c.Mods.Lock.{lock_init, lock_acquire, lock_release}
use libthreads_c.Mods.Timer.{timer_set}
use libthreads_c.ManyMany.World.{
  Ptr, null, ThreadState, running, exited, joined, Errno, Thread, timer_started, timer_stopped,
  stack_unmapped, freed, ok, swap, leave, Cmd, pure, ◌>>=◌, ◌>>◌, modify, load_thread, put_thread,
  change_thread, emit, malloc, assert, or_spins,
}

abbrev pub thread_self : Cmd Ptr
thread_self w = ok w.self w

-- `thread_errno = e`
abbrev pub set_errno : Errno → Cmd (Unit {0})
set_errno e = do thread ← thread_self; change_thread thread (λ t. record t { error = e })

abbrev pub td_set_state : Ptr → ThreadState → Cmd (Unit {0})
td_set_state thread st = change_thread thread (λ t. record t { state = st })

abbrev pub is_exited : ThreadState → Bool
is_exited exited = true
is_exited _ = false

abbrev pub is_joined : ThreadState → Bool
is_joined joined = true
is_joined _ = false

abbrev pub is_running : ThreadState → Bool
is_running running = true
is_running _ = false

abbrev pub td_is_joined : Ptr → Cmd Bool
td_is_joined thread = do t ← load_thread thread; pure (is_joined t.state)

abbrev pub td_is_exited : Ptr → Cmd Bool
td_is_exited thread = do t ← load_thread thread; pure (is_exited t.state)

-- `stack_alloc` asserts that mmap did not fail. Nothing checks what malloc returns.
unfoldable pub td_alloc : Cmd Ptr
td_alloc = do
  td ← malloc
  assert (not (td == null))
  modify (λ w. put_thread td (some w.indeterminate) w)
  curr_cxt ← malloc
  change_thread td (λ t. record t { curr_cxt = curr_cxt })
  ret_cxt ← malloc
  change_thread td (λ t. record t { ret_cxt = ret_cxt })
  assert (not (curr_cxt == null))
  stack ← malloc
  assert (not (stack == null))
  change_thread td (λ t. record t { stack = stack })
  pure td

abbrev pub td_free : Ptr → Cmd (Unit {0})
td_free thread = do
  t ← load_thread thread
  assert (not (t.curr_cxt == null))
  emit (stack_unmapped t.stack)
  emit (freed t.curr_cxt)
  emit (freed t.ret_cxt)
  emit (freed thread)
  modify (put_thread thread none)

abbrev pub initialized : ℕ → Ptr → Ptr → Thread → Thread
unfolding lock_init
initialized id st ar t = record t {
  utid = id;
  state = running;
  start = st;
  arg = ar;
  wait = 1;
  join_thread = null;
  intr_off = 0;
  pend_sig = 0;
  wait_for = null;
  mem_lock = lock_init t.mem_lock;
}

abbrev pub td_init : Ptr → ℕ → Ptr → Ptr → Cmd (Unit {0})
td_init thread id st ar = change_thread thread (initialized id st ar)

-- Saves the rest of the caller in `curr_cxt` and goes on in `ret_cxt`. swapcontext faults on NULL.
abbrev pub td_ret_cxt : Ptr → Cmd (Unit {0})
td_ret_cxt thread = do
  t ← load_thread thread
  assert (not (t.curr_cxt == null || t.ret_cxt == null))
  λ w. swap w (λ w'. ok tt w')

abbrev pub td_exit_cxt : Ptr → Cmd (Unit {0})
td_exit_cxt thread = do t ← load_thread thread; assert (not (t.ret_cxt == null)); λ w. leave w

abbrev pub td_is_over : Ptr → Cmd Bool
td_is_over thread = do t ← load_thread thread; pure (t.wait == 0)

abbrev pub td_set_over : Ptr → Cmd (Unit {0})
td_set_over thread = change_thread thread (λ t. record t { wait = 0 })

abbrev pub td_get_joining : Ptr → Cmd Ptr
td_get_joining thread = do t ← load_thread thread; pure t.join_thread

abbrev pub td_has_joining : Ptr → Cmd Bool
td_has_joining thread = do t ← load_thread thread; pure (not (t.join_thread == null))

abbrev pub td_set_joining : Ptr → Ptr → Cmd (Unit {0})
td_set_joining thread join_thd = change_thread thread (λ t. record t { join_thread = join_thd })

-- td_set_wait_thread and td_set_wait_mutex
abbrev pub td_set_wait_for : Ptr → Ptr → Cmd (Unit {0})
td_set_wait_for thread object = change_thread thread (λ t. record t { wait_for = object })

abbrev pub td_disable_intr : Ptr → Cmd (Unit {0})
td_disable_intr thread = change_thread thread (λ t. record t { intr_off = 1 })

abbrev pub td_enable_intr : Ptr → Cmd (Unit {0})
td_enable_intr thread = change_thread thread (λ t. record t { intr_off = 0 })

-- timer_set stores the timer; the action for SIGALRM is always `_mmsched_yield`.
abbrev pub td_timer_init : Ptr → ℕ → Cmd (Unit {0})
unfolding timer_set
td_timer_init thread tms w = change_thread thread (λ t. record t { timer = timer_set w.tid tms }) w

abbrev pub td_timer_start : Ptr → Cmd (Unit {0})
td_timer_start thread = do load_thread thread; emit (timer_started thread)

abbrev pub td_timer_stop : Ptr → Cmd (Unit {0})
td_timer_stop thread = do load_thread thread; emit (timer_stopped thread)

abbrev pub td_lock : Ptr → Cmd (Unit {0})
unfolding lock_acquire
td_lock thread = do
  t ← load_thread thread
  lock' ← or_spins (lock_acquire t.mem_lock)
  modify (put_thread thread (some (record t { mem_lock = lock' })))

abbrev pub td_unlock : Ptr → Cmd (Unit {0})
unfolding lock_release
td_unlock thread = change_thread thread (λ t. record t { mem_lock = lock_release t.mem_lock })
