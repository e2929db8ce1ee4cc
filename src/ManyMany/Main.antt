-- ===== src/ManyMany/Main.antt =====
-- many-many/src/thread_main.c: the entry point of the program. `main_start` is the address of the application's
-- thread_main, `arg1` what atoi makes of the first argument as a 32-bit pattern, and `others` what the
-- dispatchers do while main waits.
pub mod Ends
mod Examples
use libthreads_c.Base.{ℕ, ◌^◌, Bool, true, false, Option, none, some, not, ◌==◌, ltb, if◌then◌else◌}
use libthreads_c.Mods.Lock.{lock_init}
use libthreads_c.ManyMany.World.{
  Ptr, null, World, or_faults, spins, Cmd, pure, ◌>>=◌, ◌>>◌, modify, load_thread,
}
use libthreads_c.ManyMany.Descr.{is_joined, td_free}
use libthreads_c.ManyMany.Ready.{mmrll_init}
use libthreads_c.ManyMany.Control.{thread_create}
use libthreads_c.ManyMany.Pool.{Pool, mmsched_init, mmsched_deinit}

-- DEFAULT_NB_KTHREADS
abbrev pub default_nb_kthreads : ℕ
default_nb_kthreads = 1

abbrev pub nb_kthreads : ℕ → ℕ → ℕ
nb_kthreads argc arg1 = if ltb argc 2 then default_nb_kthreads else arg1

-- The rounds of `for (int i = 0; i < nb_scheds; i++)`: none for a negative number.
abbrev pub rounds : ℕ → ℕ
rounds nb_scheds = if ltb nb_scheds (2 ^ 31) then nb_scheds else 0

-- `while (!td_is_over(main_td));` after what the others did.
abbrev pub wait_over : Ptr → Cmd (Unit {0})
wait_over main_td = do t ← load_thread main_td; if t.wait == 0 then pure tt else λ w. spins

-- From the wait for the main thread to the end, which is the status and the dispatchers that are left.
unfoldable pub finish : Ptr → Pool → Cmd (ℕ × Pool)
finish main_td pool = do
  wait_over main_td
  t ← load_thread main_td
  (if not (is_joined t.state) then td_free main_td else pure tt)
  pure (0, mmsched_deinit pool)

-- `int nxt_utid` and its lock, and the ready list.
unfoldable pub init_globals : Cmd (Unit {0})
unfolding lock_init mmrll_init
init_globals = do
  modify (λ w. record w { nxt_utid = 0; nxt_utid_lk = lock_init w.nxt_utid_lk })
  mmrll_init

unfoldable pub main : ℕ → ℕ → Ptr → (Pool → Ptr → Cmd (Unit {0})) → Pool → Cmd (ℕ × Pool)
main argc arg1 main_start others pool = do
  init_globals
  scheds ← or_faults (mmsched_init (rounds (nb_kthreads argc arg1)) pool)
  (status, main_td) ← thread_create true main_start null
  others scheds main_td
  finish main_td scheds
