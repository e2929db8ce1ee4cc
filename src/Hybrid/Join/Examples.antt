-- ===== src/Hybrid/Join/Examples.antt =====
-- Targets that exit with 42: a one-one target on the kernel thread 77 and a many-many target. The thread 5 is
-- of the type many-many, the thread 6 of the type one-one.
use libthreads_c.Base.{ℕ, ◌≡◌, ◌≢◌, Bool, true, false, refl, arith, ◌==◌}
use libthreads_c.Hybrid.Join.{
  System, Setup, created, Later, here, next, goto, checking, parked, asleep, switching, call_join,
  join_check, join_lock, join_test, join_claim, join_over, join_switch, join_fetch, join_mark,
  exit_ret, exit_state, exit_lock, post_over, post_test, exit_enqueue, check_joined, td_lock,
  td_has_join_thread, td_set_join, td_is_over, td_unlock, td_get_ret, mark_joined, store_ret,
  store_exited, exit_td_lock, set_over, post_joined, enqueue_joiner,
}
use libthreads_c.Hybrid.Join.Once.{joins_get_result, ready_once_saved, nobody_left}

abbrev is_five : ℕ → Bool
is_five t = t == 5

abbrev kernel_target : Setup
kernel_target = record {
  many_many = is_five;
  target_many_many = false;
  word = 77;
  value = 42;
  signals = false;
}

abbrev user_target : Setup
user_target = record {
  many_many = is_five;
  target_many_many = true;
  word = 1;
  value = 42;
  signals = false;
}

-- The thread 5 joins the many-many target, which exits, and the dispatcher is about to make 5 ready.
abbrev waiting_five : System
waiting_five = td_unlock 5 parked (
    td_is_over true 5 (
      td_set_join 5
        (td_has_join_thread 5 (td_lock 5 (check_joined 5 (goto 5 checking (created 1 0)))))))

abbrev rousing_five : System
rousing_five =
    post_joined is_five (set_over (exit_td_lock (store_exited (store_ret 42 waiting_five))))

to_waiting : Later user_target (created 1 0) waiting_five
to_waiting =
    next _ _
      (next _ _
        (next _ _
          (next _ _
            (next _ _
              (next _ _ (next _ _ here (call_join 5 (ground arith) refl)) (join_check 5 refl))
              (join_lock 5 refl))
            (join_test 5 refl))
          (join_claim 5 refl))
        (join_over 5 refl))
      (join_switch 5 refl)

to_rousing : Later user_target (created 1 0) rousing_five
to_rousing =
    next _ _
      (next _ _
        (next _ _ (next _ _ (next _ _ to_waiting (exit_ret refl)) (exit_state refl))
          (exit_lock refl))
        (post_over refl refl))
      (post_test refl refl)

ready_once_saved_example : (rousing_five.pc 5 ≡ parked) × (is_five 5 ≡ true)
ready_once_saved_example =
    ready_once_saved user_target 0 rousing_five (ground arith) to_rousing refl

abbrev joined_five : System
joined_five = mark_joined 5 42 (td_get_ret 5 (enqueue_joiner true rousing_five))

to_joined : Later user_target (created 1 0) joined_five
to_joined =
    next _ _ (next _ _ (next _ _ to_rousing (exit_enqueue refl)) (join_fetch 5 refl))
      (join_mark 5 42 refl)

joins_get_result_example :
    (42 ≡ user_target.value) × (joined_five.target.wait ≡ 0) × (5 ≡ joined_five.target.join_td)
joins_get_result_example =
    joins_get_result user_target 0 joined_five (ground arith) to_joined refl 5 42 5 42 refl refl

nobody_left_example :
    (joined_five.pc 5 ≢ asleep) × (joined_five.pc 5 ≢ parked) × (joined_five.pc 5 ≢ switching)
nobody_left_example = nobody_left user_target 0 joined_five (ground arith) to_joined 5 refl refl
