-- ===== src/Hybrid/Spin.antt =====
-- hybrid/src/thread_sync.c and thread_sync.h: the spinlocks, by the conventions of many-many's.
use libthreads_c.Base.{ℕ, Bool, Option, none, some, not, ◌==◌, if◌then◌else◌}
use libthreads_c.Mods.Utils.{atomic_cas}
use libthreads_c.Hybrid.World.{
  Ptr, null, Errno, einval, eagain, ebusy, eacces, Status, fail, success, spins, Cmd, pure, ◌>>=◌,
  ◌>>◌, modify, load_spin, put_spin, change_spin, malloc, assert, emit, freed,
}
use libthreads_c.Hybrid.Descr.{thread_self, set_errno}

abbrev pub spinlock_acquired : ℕ
spinlock_acquired = 0

abbrev pub spinlock_not_acquired : ℕ
spinlock_not_acquired = 1

abbrev pub spin_set_owner : Ptr → Ptr → Cmd (Unit {0})
spin_set_owner spin thread = change_spin spin (λ s. record s { owner = thread })

abbrev pub spin_acq_lock : Ptr → Cmd Bool
spin_acq_lock spin = do
  s ← load_spin spin
  let (done, lock') = atomic_cas s.lock spinlock_not_acquired spinlock_acquired
  change_spin spin (λ s. record s { lock = lock' })
  pure done

abbrev pub spin_rel_lock : Ptr → Cmd Bool
spin_rel_lock spin = do
  s ← load_spin spin
  let (done, lock') = atomic_cas s.lock spinlock_acquired spinlock_not_acquired
  change_spin spin (λ s. record s { lock = lock' })
  pure done

-- `!spinlock || !*spinlock`
abbrev pub handle_of : Option Ptr → Ptr
handle_of none = null
handle_of (some p) = p

abbrev pub failing : {A : Type 0} → Errno → A → Cmd A
failing e a = do set_errno e; pure a

-- `alloc_mem` asserts that malloc did not fail. The object holds the owner and the lock word that spin_init stores.
unfoldable pub thread_spin_init : Bool → Cmd (Status × Ptr)
thread_spin_init spinlock = if not spinlock then failing einval (fail, null) else do
  spin ← malloc
  assert (not (spin == null))
  if spin == null then failing eagain (fail, spin) else do
    modify (put_spin spin (some (record { owner = null; lock = spinlock_not_acquired })))
    pure (success, spin)

-- The busy wait: with no other thread running, a lock that is taken is never released.
unfoldable pub thread_spin_lock : Option Ptr → Cmd Status
thread_spin_lock spinlock = if handle_of spinlock == null then failing einval fail else do
  thread ← thread_self
  done ← spin_acq_lock (handle_of spinlock)
  if done then (do spin_set_owner (handle_of spinlock) thread; pure success) else λ w. spins

unfoldable pub thread_spin_trylock : Option Ptr → Cmd Status
thread_spin_trylock spinlock = if handle_of spinlock == null then failing einval fail else do
  thread ← thread_self
  done ← spin_acq_lock (handle_of spinlock)
  if done then (do spin_set_owner (handle_of spinlock) thread; pure success) else failing ebusy fail

unfoldable pub thread_spin_unlock : Option Ptr → Cmd Status
thread_spin_unlock spinlock = if handle_of spinlock == null then failing einval fail else do
  thread ← thread_self
  s ← load_spin (handle_of spinlock)
  if not (s.owner == thread) then failing eacces fail else do
    spin_set_owner (handle_of spinlock) null
    spin_rel_lock (handle_of spinlock)
    pure success

unfoldable pub thread_spin_destroy : Option Ptr → Cmd Status
thread_spin_destroy spinlock = if handle_of spinlock == null then failing einval fail else do
  load_spin (handle_of spinlock)
  emit (freed (handle_of spinlock))
  modify (put_spin (handle_of spinlock) none)
  pure success
