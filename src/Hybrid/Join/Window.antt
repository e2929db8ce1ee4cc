-- ===== src/Hybrid/Join/Window.antt =====
-- A many-many thread that joins a one-one target between the target's look for joiners and its end.
use libthreads_c.Base.{ℕ, ◌≡◌, ◌⊎◌}
use libthreads_c.Hybrid.Join.{
  checking, parked, Progress, quits, gone, System, goto, created, check_joined, td_lock,
  td_has_join_thread, td_set_join, td_is_over, td_unlock, store_ret, store_exited, exit_td_lock,
  exit_joined, Setup,
}

-- A one-one target has looked for its joiner: its kernel thread is about to end, or has ended.
abbrev pub Late : Progress → Type 0
Late q = (q ≡ quits) ⊎ (q ≡ gone)

-- `j` waits to be made ready by it.
abbrev Stranded : ℕ → System → Type 0
Stranded j s = Late s.progress × (s.pc j ≡ parked)

module _ (c : Setup) (ret j : ℕ) where
  -- The target has found that nobody joins it and has released its lock.
  abbrev quitting : System
  quitting =
      exit_joined c.many_many (exit_td_lock (store_exited (store_ret c.value (created c.word ret))))

  abbrev claimed_late : System
  claimed_late =
      td_set_join j (td_has_join_thread j (td_lock j (check_joined j (goto j checking quitting))))

  abbrev parked_late : System
  parked_late = td_unlock j parked (td_is_over (c.many_many j) j claimed_late)
