-- ===== src/ManyMany/Mutex.antt =====
-- many-many/src/thread_sync.c and thread_sync.h, the mutexes: an owner, a queue of waiting threads,
-- and a lock over both. `ThreadMutex *mutex` is as for the spinlocks.
pub mod Lock
pub mod Unlock
pub mod Handoff
pub mod Fifo
use libthreads_c.Base.{
  ℕ, Bool, true, false, Option, none, some, List, [], ◌∷◌, ◌++◌, not, ◌==◌, if◌then◌else◌,
}
use libthreads_c.Mods.Lock.{lock_not_acquired, lock_acquire, lock_release}
use libthreads_c.ManyMany.World.{
  Ptr, null, ThreadState, running, wait_mutex, Errno, einval, eagain, ebusy, eacces, Status, fail,
  success, Mutex, World, Run, fault, Cmd, pure, ◌>>=◌, ◌>>◌, modify, load_thread, load_mutex,
  put_mutex, change_mutex, malloc, or_spins, emit, Event, freed,
}
use libthreads_c.ManyMany.Descr.{
  thread_self, td_set_state, td_set_wait_for, td_ret_cxt, td_disable_intr, td_enable_intr,
}
use libthreads_c.ManyMany.Ready.{mmrll_enqueue, mmrll_lock, mmrll_unlock}
use libthreads_c.ManyMany.Spin.{handle_of, failing}

abbrev pub mut_set_owner : Ptr → Ptr → Cmd (Unit {0})
mut_set_owner mut thread = change_mutex mut (λ m. record m { owner = thread })

unfoldable pub mut_lock : Ptr → Cmd (Unit {0})
unfolding lock_acquire
mut_lock mut = do
  m ← load_mutex mut
  lock' ← or_spins (lock_acquire m.mem_lock)
  modify (put_mutex mut (some (record m { mem_lock = lock' })))

unfoldable pub mut_unlock : Ptr → Cmd (Unit {0})
unfolding lock_release
mut_unlock mut = change_mutex mut (λ m. record m { mem_lock = lock_release m.mem_lock })

-- The link is the member of the descriptor that the ready list uses too.
abbrev pub mut_add_wait_thread : Ptr → Ptr → Cmd (Unit {0})
mut_add_wait_thread mut thread = do
  load_thread thread
  change_mutex mut (λ m. record m { waitll = m.waitll ++ thread ∷ [] })

abbrev pub take_waiting : Ptr → Mutex → List Ptr → Cmd Ptr
take_waiting mut m [] w = fault
take_waiting mut m (x ∷ xs) w =
    (do load_thread x; modify (put_mutex mut (some (record m { waitll = xs }))); pure x) w

abbrev pub mut_get_wait_thread : Ptr → Cmd Ptr
mut_get_wait_thread mut = do m ← load_mutex mut; take_waiting mut m m.waitll

abbrev pub has_waiting : List Ptr → Bool
has_waiting [] = false
has_waiting (x ∷ xs) = true

unfoldable pub thread_mutex_init : Bool → Cmd (Status × Ptr)
thread_mutex_init mutex = if not mutex then failing einval (fail, null) else do
  mut ← malloc
  if mut == null then failing eagain (fail, mut) else do
    modify
        (put_mutex mut (some (record { owner = null; waitll = []; mem_lock = lock_not_acquired })))
    pure (success, mut)

-- From the return of the wait to the end of thread_mutex_lock.
unfoldable pub lock_finish : Ptr → Cmd Status
lock_finish thread = do
  td_set_wait_for thread null
  td_set_state thread running
  td_enable_intr thread
  pure success

unfoldable pub thread_mutex_lock : Option Ptr → Cmd Status
unfolding mut_lock mut_unlock
thread_mutex_lock mutex = if handle_of mutex == null then failing einval fail else do
  thread ← thread_self
  mut_lock (handle_of mutex)
  m ← load_mutex (handle_of mutex)
  if m.owner == null
      then (do mut_set_owner (handle_of mutex) thread; mut_unlock (handle_of mutex); pure success)
      else do
        td_disable_intr thread
        td_set_state thread wait_mutex
        td_set_wait_for thread (handle_of mutex)
        mut_add_wait_thread (handle_of mutex) thread
        td_ret_cxt thread
        lock_finish thread

unfoldable pub thread_mutex_trylock : Option Ptr → Cmd Status
unfolding mut_lock mut_unlock
thread_mutex_trylock mutex = if handle_of mutex == null then failing einval fail else do
  thread ← thread_self
  mut_lock (handle_of mutex)
  m ← load_mutex (handle_of mutex)
  if m.owner == null
      then (do mut_set_owner (handle_of mutex) thread; mut_unlock (handle_of mutex); pure success)
      else do mut_unlock (handle_of mutex); failing ebusy fail

unfoldable pub thread_mutex_unlock : Option Ptr → Cmd Status
unfolding mut_lock mut_unlock mmrll_lock mmrll_enqueue mmrll_unlock
thread_mutex_unlock mutex = if handle_of mutex == null then failing einval fail else do
  thread ← thread_self
  mut_lock (handle_of mutex)
  m ← load_mutex (handle_of mutex)
  if not (m.owner == thread) then (do mut_unlock (handle_of mutex); failing eacces fail) else do
    (if has_waiting m.waitll
        then (do
          wait_thread ← mut_get_wait_thread (handle_of mutex)
          mut_set_owner (handle_of mutex) wait_thread
          td_disable_intr thread
          mmrll_lock
          mmrll_enqueue wait_thread
          mmrll_unlock
          td_enable_intr thread)
        else mut_set_owner (handle_of mutex) null)
    mut_unlock (handle_of mutex)
    pure success

unfoldable pub thread_mutex_destroy : Option Ptr → Cmd Status
thread_mutex_destroy mutex = if handle_of mutex == null then failing einval fail else do
  load_mutex (handle_of mutex)
  emit (freed (handle_of mutex))
  modify (put_mutex (handle_of mutex) none)
  pure success
