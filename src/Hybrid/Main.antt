-- ===== src/Hybrid/Main.antt =====
-- hybrid/src/thread_main.c: the entry point of the program, whose main thread is of the type one-one. The
-- parameters are those of ManyMany/Main.
pub mod Ends
mod Examples
use libthreads_c.Base.{ℕ, ◌^◌, Bool, true, false, Option, none, some, not, ◌==◌, ltb, if◌then◌else◌}
use libthreads_c.Mods.Lock.{lock_init}
use libthreads_c.ManyMany.Main.{nb_kthreads, rounds}
use libthreads_c.Hybrid.World.{
  Ptr, null, or_faults, spins, Cmd, pure, ◌>>=◌, ◌>>◌, modify, load_thread,
}
use libthreads_c.Hybrid.Descr.{is_joined, td_free}
use libthreads_c.Hybrid.Ready.{mmrll_init}
use libthreads_c.Hybrid.Control.{thread_create, type_one_one}
use libthreads_c.Hybrid.Pool.{Pool, mmsched_init, mmsched_deinit}

-- `while (!td_is_over(main_td));` after what the others did.
abbrev pub wait_over : Ptr → Cmd (Unit {0})
wait_over main_td = do t ← load_thread main_td; if t.wait == 0 then pure tt else λ w. spins

-- td_oo_free is td_free on a thread of the type one-one.
-- From the wait for the main thread to the end, which is the status and the dispatchers that are left.
unfoldable pub finish : Ptr → Pool → Cmd (ℕ × Pool)
finish main_td pool = do
  wait_over main_td
  t ← load_thread main_td
  (if not (is_joined t.state) then td_free main_td else pure tt)
  pure (0, mmsched_deinit pool)

unfoldable pub init_globals : Cmd (Unit {0})
unfolding lock_init mmrll_init
init_globals = do
  modify (λ w. record w { nxt_utid = 0; nxt_utid_lk = lock_init w.nxt_utid_lk })
  mmrll_init

unfoldable pub main : ℕ → ℕ → Ptr → (Pool → Ptr → Cmd (Unit {0})) → Pool → Cmd (ℕ × Pool)
main argc arg1 main_start others pool = do
  init_globals
  scheds ← or_faults (mmsched_init (rounds (nb_kthreads argc arg1)) pool)
  (status, main_td) ← thread_create true main_start null type_one_one
  others scheds main_td
  finish main_td scheds
