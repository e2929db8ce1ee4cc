-- ===== src/OneOne/Objects.antt =====
-- one-one/src/thread_sync.c: the creation and destruction of spinlocks and mutexes, by the conventions of
-- many-many.
use libthreads_c.Base.{Bool, Option, none, some, not, ◌==◌, if◌then◌else◌, update}
use libthreads_c.OneOne.World.{
  Ptr, null, einval, eagain, Status, fail, success, freed, Cmd, pure, ◌>>=◌, ◌>>◌, modify, or_fault,
  malloc, emit, set_errno,
}
use libthreads_c.OneOne.Spin.{spinlock_not_acquired}
use libthreads_c.OneOne.Mutex.{mutex_not_acquired}

-- `!spinlock || !*spinlock`
abbrev pub handle_of : Option Ptr → Ptr
handle_of none = null
handle_of (some p) = p

unfoldable pub thread_spin_init : Bool → Cmd (Status × Ptr)
thread_spin_init spinlock = if not spinlock then (do set_errno einval; pure (fail, null)) else do
  spin ← malloc
  if spin == null then (do set_errno eagain; pure (fail, spin)) else do
    modify (λ w. record w {
      spinlocks =
          update w.spinlocks spin (some (record { owner = null; lock = spinlock_not_acquired }));
    })
    pure (success, spin)

unfoldable pub thread_spin_destroy : Option Ptr → Cmd Status
thread_spin_destroy spinlock =
    if handle_of spinlock == null then (do set_errno einval; pure fail) else do
      λ w. or_fault (handle_of spinlock) (w.spinlocks (handle_of spinlock)) w
      emit (freed (handle_of spinlock))
      modify (λ w. record w { spinlocks = update w.spinlocks (handle_of spinlock) none })
      pure success

unfoldable pub thread_mutex_init : Bool → Cmd (Status × Ptr)
thread_mutex_init mutex = if not mutex then (do set_errno einval; pure (fail, null)) else do
  mut ← malloc
  if mut == null then (do set_errno eagain; pure (fail, mut)) else do
    modify (λ w. record w {
      mutexes = update w.mutexes mut (some (record { owner = null; lock = mutex_not_acquired }));
    })
    pure (success, mut)

unfoldable pub thread_mutex_destroy : Option Ptr → Cmd Status
thread_mutex_destroy mutex =
    if handle_of mutex == null then (do set_errno einval; pure fail) else do
      λ w. or_fault (handle_of mutex) (w.mutexes (handle_of mutex)) w
      emit (freed (handle_of mutex))
      modify (λ w. record w { mutexes = update w.mutexes (handle_of mutex) none })
      pure success
