-- ===== src/Hybrid/Descr.antt =====
-- hybrid/src/thread_descr.h and thread_errno.c: the operations on one thread descriptor.
use libthreads_c.Base.{ℕ, Bool, true, false, some, ◌||◌, not, ◌==◌, if◌then◌else◌}
use libthreads_c.Mods.Lock.{lock_acquire, lock_release}
use libthreads_c.Mods.Timer.{timer_set}
use libthreads_c.Mods.Utils.{minus_one}
use libthreads_c.Hybrid.World.{
  Ptr, null, ThreadState, running, exited, joined, Errno, Members, one_one, many_many, Thread,
  timer_started, timer_stopped, stack_unmapped, freed, cloned, futex_waited, futex_woken, ok, swap,
  leave, Cmd, pure, ◌>>=◌, ◌>>◌, modify, load_thread, put_thread, change_thread, load_contexts,
  change_contexts, emit, malloc, clone, assert, or_spins, spins,
}

abbrev pub thread_self : Cmd Ptr
thread_self w = ok w.self w

-- `thread_errno = e`
abbrev pub set_errno : Errno → Cmd (Unit {0})
set_errno e = do thread ← thread_self; change_thread thread (λ t. record t { error = e })

abbrev pub td_set_state : Ptr → ThreadState → Cmd (Unit {0})
td_set_state thread st = change_thread thread (λ t. record t { state = st })

abbrev pub is_exited : ThreadState → Bool
is_exited exited = true
is_exited _ = false

abbrev pub is_joined : ThreadState → Bool
is_joined joined = true
is_joined _ = false

abbrev pub is_running : ThreadState → Bool
is_running running = true
is_running _ = false

abbrev pub is_many_many : Members → Bool
is_many_many (one_one ktid stack) = false
is_many_many (many_many m) = true

abbrev pub td_is_joined : Ptr → Cmd Bool
td_is_joined thread = do t ← load_thread thread; pure (is_joined t.state)

abbrev pub td_is_many_many : Ptr → Cmd Bool
td_is_many_many thread = do t ← load_thread thread; pure (is_many_many t.members)

abbrev pub td_is_one_one : Ptr → Cmd Bool
td_is_one_one thread = do t ← load_thread thread; pure (not (is_many_many t.members))

-- `alloc_mem` asserts that malloc did not fail, and `stack_alloc` that mmap did not.
unfoldable pub td_oo_alloc : Cmd Ptr
td_oo_alloc = do
  td ← malloc
  assert (not (td == null))
  stack ← malloc
  assert (not (stack == null))
  λ w.
      modify (put_thread td (some (record w.indeterminate { members = one_one w.garbage stack }))) w
  pure td

unfoldable pub td_mm_alloc : Cmd Ptr
td_mm_alloc = do
  td ← malloc
  assert (not (td == null))
  curr_cxt ← malloc
  assert (not (curr_cxt == null))
  ret_cxt ← malloc
  assert (not (ret_cxt == null))
  stack ← malloc
  assert (not (stack == null))
  λ w.
      modify
        (put_thread td (
          some (record w.indeterminate {
            members = many_many (record {
              curr_cxt = curr_cxt;
              ret_cxt = ret_cxt;
              stack = stack;
              pend_sig = w.garbage;
              intr_off = w.garbage;
              timer = timer_set w.garbage w.garbage;
            });
          })))
        w
  pure td

-- td_oo_free and td_mm_free; the descriptor itself is not freed.
abbrev pub free_members : Members → Cmd (Unit {0})
free_members (one_one ktid stack) = emit (stack_unmapped stack)
free_members (many_many m) = do
  assert (not (m.curr_cxt == null))
  emit (stack_unmapped m.stack)
  emit (freed m.curr_cxt)
  emit (freed m.ret_cxt)

abbrev pub td_free : Ptr → Cmd (Unit {0})
td_free thread = do t ← load_thread thread; free_members t.members

-- What td_oo_init and td_mm_init have in common.
abbrev pub initialized : ℕ → Ptr → Ptr → Thread → Thread
initialized id st ar t = record t {
  utid = id;
  state = running;
  start = st;
  arg = ar;
  join_td = null;
  wait_join_td = null;
  mem_lock = 1;
}

abbrev pub td_oo_init : Ptr → ℕ → Ptr → Ptr → Cmd (Unit {0})
td_oo_init thread id st ar = change_thread thread (initialized id st ar)

abbrev pub td_mm_init : Ptr → ℕ → Ptr → Ptr → Cmd (Unit {0})
td_mm_init thread id st ar = do
  change_thread thread (λ t. record (initialized id st ar t) { wait = 1 })
  change_contexts thread (λ m. record m { pend_sig = 0; intr_off = 0 })

abbrev pub set_ktid : ℕ → Members → Members
set_ktid k (one_one ktid stack) = one_one k stack
set_ktid k (many_many m) = many_many m

-- CLONE_PARENT_SETTID stores the kernel thread id in the wait word when the call succeeds.
abbrev pub td_oo_create : Ptr → Cmd ℕ
td_oo_create thread = do
  ktid ← clone
  (if ktid == minus_one
      then pure tt
      else (do change_thread thread (λ t. record t { wait = ktid }); emit (cloned thread ktid)))
  change_thread thread (λ t. record t { members = set_ktid ktid t.members })
  pure ktid

-- Saves the rest of the caller in `curr_cxt` and goes on in `ret_cxt`. swapcontext faults on NULL.
abbrev pub td_mm_ret_cxt : Ptr → Cmd (Unit {0})
td_mm_ret_cxt thread = do
  m ← load_contexts thread
  assert (not (m.curr_cxt == null || m.ret_cxt == null))
  λ w. swap w (λ w'. ok tt w')

abbrev pub td_mm_exit_cxt : Ptr → Cmd (Unit {0})
td_mm_exit_cxt thread = do m ← load_contexts thread; assert (not (m.ret_cxt == null)); λ w. leave w

-- sys_exit on a one-one thread, and the return of its clone: CLONE_CHILD_CLEARTID clears the wait word
-- and wakes a thread that waits on it.
abbrev pub kernel_thread_ends : Ptr → Cmd (Unit {0})
kernel_thread_ends thread = do
  change_thread thread (λ t. record t { wait = 0 })
  emit (futex_woken thread)
  λ w. leave w

abbrev pub td_is_over : Ptr → Cmd Bool
td_is_over thread = do t ← load_thread thread; pure (t.wait == 0)

abbrev pub td_set_over : Ptr → Cmd (Unit {0})
td_set_over thread = change_thread thread (λ t. record t { wait = 0 })

-- FUTEX_WAIT on the wait word: a sleep if the word holds `val`, else no wait at all.
abbrev pub futex_wait : Ptr → ℕ → Cmd (Unit {0})
futex_wait thread val = do
  t ← load_thread thread
  if t.wait == val then (do emit (futex_waited thread); λ w. swap w (λ w'. ok tt w')) else pure tt

-- `while (thread->wait);` with no other thread running
abbrev pub spin_while_waiting : Ptr → Cmd (Unit {0})
spin_while_waiting thread = do t ← load_thread thread; if t.wait == 0 then pure tt else λ w. spins

-- wait_val in thread_join
abbrev pub wait_val_of : Members → ℕ
wait_val_of (one_one ktid stack) = ktid
wait_val_of (many_many m) = 1

abbrev pub td_has_join_thread : Ptr → Cmd Bool
td_has_join_thread thread = do t ← load_thread thread; pure (not (t.join_td == null))

abbrev pub td_get_join_thread : Ptr → Cmd Ptr
td_get_join_thread thread = do t ← load_thread thread; pure t.join_td

abbrev pub td_set_join : Ptr → Ptr → Cmd (Unit {0})
td_set_join target calling = do
  change_thread target (λ t. record t { join_td = calling })
  change_thread calling (λ t. record t { wait_join_td = target })

abbrev pub td_clear_wait_join_thread : Ptr → Cmd (Unit {0})
td_clear_wait_join_thread thread = change_thread thread (λ t. record t { wait_join_td = null })

abbrev pub td_mm_disable_intr : Ptr → Cmd (Unit {0})
td_mm_disable_intr thread = change_contexts thread (λ m. record m { intr_off = 1 })

abbrev pub td_mm_enable_intr : Ptr → Cmd (Unit {0})
td_mm_enable_intr thread = change_contexts thread (λ m. record m { intr_off = 0 })

-- timer_set stores the timer; the action for SIGALRM is always `_mmsched_yield`.
abbrev pub td_mm_timer_init : Ptr → ℕ → Cmd (Unit {0})
unfolding timer_set
td_mm_timer_init thread tms w =
    change_contexts thread (λ m. record m { timer = timer_set w.tid tms }) w

abbrev pub td_mm_timer_start : Ptr → Cmd (Unit {0})
td_mm_timer_start thread = do load_contexts thread; emit (timer_started thread)

abbrev pub td_mm_timer_stop : Ptr → Cmd (Unit {0})
td_mm_timer_stop thread = do load_contexts thread; emit (timer_stopped thread)

abbrev pub td_lock : Ptr → Cmd (Unit {0})
unfolding lock_acquire
td_lock thread = do
  t ← load_thread thread
  lock' ← or_spins (lock_acquire t.mem_lock)
  modify (put_thread thread (some (record t { mem_lock = lock' })))

abbrev pub td_unlock : Ptr → Cmd (Unit {0})
unfolding lock_release
td_unlock thread = change_thread thread (λ t. record t { mem_lock = lock_release t.mem_lock })
