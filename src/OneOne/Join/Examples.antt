-- ===== src/OneOne/Join/Examples.antt =====
-- A run of two joiners, 5 and 6, and a target with the kernel thread id 77 that exits with 42.
use libthreads_c.Base.{ℕ, ◌≡◌, ◌≢◌, refl, false, true, arith}
use libthreads_c.OneOne.Join.{
  checking, marking, waiting, refused, returned, gone, System, goto, created, check_joined, td_lock,
  td_has_join_thread, td_set_join_thread, td_is_over, td_unlock, futex_wait, mark_joined,
  td_get_ret, td_free, store_ret, store_exited, clear_tid, call_join, join_check, join_lock,
  join_test, join_refuse, join_claim, join_over, join_unlock, join_wait, join_mark, join_fetch,
  join_free, exit_ret, exit_state, exit_wake, Reachable, start, next,
}
use libthreads_c.OneOne.Join.Returns.{CanReturn, sleeper_returns}
use libthreads_c.OneOne.Join.Once.{joined_once}

abbrev claimed_by_5 : System
claimed_by_5 =
    td_set_join_thread 5
      (td_has_join_thread 5 (td_lock 5 (check_joined 5 (goto 5 checking (created 77 0)))))

claimed_by_5-Reachable : Reachable false 77 42 0 claimed_by_5
claimed_by_5-Reachable =
    next _ _
      (next _ _
        (next _ _ (next _ _ (next _ _ start (call_join 5 (ground arith) refl)) (join_check 5 refl))
          (join_lock 5 refl))
        (join_test 5 refl))
      (join_claim 5 refl)

abbrev sleeping : System
sleeping = futex_wait 77 5 (td_unlock 5 waiting (td_is_over 5 claimed_by_5))

sleeping-Reachable : Reachable false 77 42 0 sleeping
sleeping-Reachable =
    next _ _ (next _ _ (next _ _ claimed_by_5-Reachable (join_over 5 refl)) (join_unlock 5 refl))
      (join_wait 5 refl)

-- 6 asks for the target while 5 sleeps, and is refused.
abbrev refused_6 : System
refused_6 =
    td_unlock 6 refused
      (td_has_join_thread 6 (td_lock 6 (check_joined 6 (goto 6 checking sleeping))))

refused_6-Reachable : Reachable false 77 42 0 refused_6
refused_6-Reachable =
    next _ _
      (next _ _
        (next _ _
          (next _ _ (next _ _ sleeping-Reachable (call_join 6 (ground arith) refl))
            (join_check 6 refl))
          (join_lock 6 refl))
        (join_test 6 refl))
      (join_refuse 6 refl)

abbrev woken : System
woken = goto 5 marking (clear_tid (store_exited (store_ret 42 refused_6)))

abbrev finished : System
finished = td_free 5 42 (td_get_ret 5 (mark_joined 5 woken))

finished-Reachable : Reachable false 77 42 0 finished
finished-Reachable =
    next _ _
      (next _ _
        (next _ _
          (next _ _ (next _ _ (next _ _ refused_6-Reachable (exit_ret refl)) (exit_state refl))
            (exit_wake 5 refl refl))
          (join_mark 5 refl))
        (join_fetch 5 refl))
      (join_free 5 42 refl)

joined_once_example :
    ((t v : ℕ)
      → finished.pc t ≡ returned v
      → (v ≡ 42) × (finished.progress ≡ gone) × ((u v' : ℕ) → finished.pc u ≡ returned v' → u ≡ t))
    × (finished.progress ≢ gone → finished.target.stack ≡ true)
joined_once_example = joined_once 77 42 0 finished (ground arith) finished-Reachable

sleeper_returns_example : CanReturn 77 42 5 refused_6
sleeper_returns_example =
    sleeper_returns 77 42 0 refused_6 5 (ground arith) refused_6-Reachable refl
