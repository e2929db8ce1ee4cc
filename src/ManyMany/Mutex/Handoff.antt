-- ===== src/ManyMany/Mutex/Handoff.antt =====
-- A history of lock and unlock calls on one mutex by any threads, against a queue: its head is the
-- owner, the others wait in their order.
use libthreads_c.Base.{◌≡◌, refl, false, some, List, [], ◌∷◌, ◌++◌, ◌==◌, has, has-append, arith}
use libthreads_c.ManyMany.World.{
  Ptr, null, Status, Thread, Mutex, World, Run, ok, swap, leave, spins, fault, Cmd, pure, ◌>>=◌,
  ◌>>◌, load_mutex,
}
use libthreads_c.ManyMany.Facts.{HoldsMutex, Live}
use libthreads_c.ManyMany.Mutex.{thread_mutex_lock, thread_mutex_unlock}
use libthreads_c.ManyMany.Sched.{set_fs, post_schedule}

-- The call returned, or its thread came back to the dispatcher, which takes the action for it.
abbrev pub settle : Ptr → Run Status → Run (Unit {0})
settle thread (ok status w) = ok tt w
settle thread (swap w k) = (do post_schedule null false thread; pure tt) w
settle thread (leave w) = fault
settle thread spins = spins
settle thread fault = fault

pub data Op : Type 0 where
  lock : Ptr → Op
  unlock : Op

-- `lock thread` is a call by that thread, `unlock` a call by whoever owns the mutex.
abbrev pub perform : Ptr → Op → Cmd (Unit {0})
perform p (lock thread) = do set_fs thread; λ w. settle thread (thread_mutex_lock (some p) w)
perform p unlock = do
  m ← load_mutex p
  set_fs m.owner
  λ w. settle m.owner (thread_mutex_unlock (some p) w)

unfoldable pub history : Ptr → List Op → Cmd (Unit {0})
history p [] = pure tt
history p (op ∷ ops) = do perform p op; history p ops

-- The mutex of a queue of threads.
abbrev pub mutex_of : List Ptr → Mutex
mutex_of [] = record { owner = null; waitll = []; mem_lock = 1 }
mutex_of (x ∷ xs) = record { owner = x; waitll = xs; mem_lock = 1 }

abbrev pub after : List Op → List Ptr → List Ptr
after [] l = l
after (lock t ∷ ops) l = after ops (l ++ t ∷ [])
after (unlock ∷ ops) [] = []
after (unlock ∷ ops) (x ∷ xs) = after ops xs

-- The threads that an unlock makes ready, in order.
abbrev pub heads : List Ptr → List Ptr
heads [] = []
heads (y ∷ ys) = y ∷ []

abbrev pub woken : List Op → List Ptr → List Ptr
woken [] l = []
woken (lock t ∷ ops) l = woken ops (l ++ t ∷ [])
woken (unlock ∷ ops) [] = []
woken (unlock ∷ ops) (x ∷ xs) = heads xs ++ woken ops xs

-- A thread that waits or owns the mutex does not lock it, and only an owned mutex is unlocked.
abbrev pub Admissible : List Op → List Ptr → Type 0
Admissible [] l = Unit
Admissible (lock t ∷ ops) l =
    ((t == null) ≡ false) × (has t l ≡ false) × Admissible ops (l ++ t ∷ [])
Admissible (unlock ∷ ops) [] = ⊥
Admissible (unlock ∷ ops) (x ∷ xs) = Admissible ops xs

abbrev pub Distinct : List Ptr → Type 0
Distinct [] = Unit
Distinct (x ∷ xs) = (has x xs ≡ false) × Distinct xs

pub Distinct-snoc : (l : List Ptr) (t : Ptr) → Distinct l → has t l ≡ false → Distinct (l ++ t ∷ [])
Distinct-snoc [] t d n = (refl, tt)
Distinct-snoc (x ∷ xs) t (n', d) n =
    (ground (arith, has-append x xs (t ∷ [])), Distinct-snoc xs t d (ground arith))

pub no_null-snoc :
    (l : List Ptr) (t : Ptr)
    → has null l ≡ false
    → (t == null) ≡ false
    → has null (l ++ t ∷ []) ≡ false
no_null-snoc l t h n = ground (arith, has-append null l (t ∷ []))

-- The mutex `p` is that of the queue `l` of distinct threads, every thread has a descriptor with
-- its contexts, and the ready list is unlocked.
pub record Good (p : Ptr) (l : List Ptr) (w : World) : Type 0 where
  pub mutex : HoldsMutex w p (mutex_of l)
  pub unlocked : w.mmrll_lk ≡ 1
  pub no_null : has null l ≡ false
  pub distinct : Distinct l
  pub live : (a : Ptr) → (a == null) ≡ false → (t : Thread) × Live w a t

abbrev pub AllLive : World → Type 0
AllLive w = (a : Ptr) → (a == null) ≡ false → (t : Thread) × Live w a t
