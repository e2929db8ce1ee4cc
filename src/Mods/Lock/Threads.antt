-- ===== src/Mods/Lock/Threads.antt =====
-- mods/lock.c: any number of threads, on any kernel threads, that use one lock word. A round of
-- the loop of lock_acquire and the compare and swap of lock_release are atomic; between a
-- thread's two calls stands its critical section.
use libthreads_c.Base.{ℕ, ◌≡◌, update, if◌then◌else◌}
use libthreads_c.Mods.Lock.{lock_init, lock_try, lock_release}

-- A thread is in neither call, in the loop of lock_acquire, or in its critical section.
pub data Pc : Type 0 where
  outside acquiring critical : Pc

pub record Users : Type 0 where
  pub lock : ℕ
  pub pc : ℕ → Pc

-- A word with any contents, initialized before the first use.
unfoldable pub fresh : ℕ → Users
unfolding lock_init
fresh word = record { lock = lock_init word; pc = λ t. outside }

abbrev pub enter_loop : ℕ → Users → Users
enter_loop t u = record u { pc = update u.pc t acquiring }

unfoldable pub try_round : ℕ → Users → Users
unfolding lock_try
try_round t u =
    let (done, lock) = lock_try u.lock in
    record { lock = lock; pc = update u.pc t (if done then critical else acquiring) }

unfoldable pub leave : ℕ → Users → Users
unfolding lock_release
leave t u = record { lock = lock_release u.lock; pc = update u.pc t outside }

pub data Step (u : Users) : Users → Type 0 where
  call : (t : ℕ) → u.pc t ≡ outside → Step u (enter_loop t u)
  round : (t : ℕ) → u.pc t ≡ acquiring → Step u (try_round t u)
  release : (t : ℕ) → u.pc t ≡ critical → Step u (leave t u)

pub data Reachable (word : ℕ) : Users → Type 0 where
  start : Reachable word (fresh word)
  next : (u g : Users) → Reachable word u → Step u g → Reachable word g
