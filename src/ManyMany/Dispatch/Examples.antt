-- ===== src/ManyMany/Dispatch/Examples.antt =====
-- Two dispatchers, 0 and 5: the main thread creates a second one and joins it while that one runs on the other
-- dispatcher and exits.
use libthreads_c.Base.{ℕ, ◌≡◌, ◌≢◌, refl, true, false, has, [], ◌∷◌, arith, ◌==◌, Distinct}
use libthreads_c.ManyMany.Dispatch.{
  chosen, sending, yielded, killing, signalling, kill_holds, td_ret_cxt, enqueue, send_lock,
  send_unlock, yield, requeue, kill_call, kill_lock, prepared, joining, testing, loop, System,
  set_intr, td_lock, td_unlock, get_next_thread, td_set_cxt, thread_create, join_test,
  park_or_return, choose, enter, create, join_call, join_lock, join_joined, join_waits, join_parked,
  started, Reachable, start, next,
}
use libthreads_c.ManyMany.Dispatch.Places.{in_hand}
use libthreads_c.ManyMany.Dispatch.Stuck.{none, more, spins_for_ever}
use libthreads_c.ManyMany.Dispatch.Order.{
  one_dispatcher, ready_waits, switches_alone, Somewhere, nobody_lost,
}

-- The dispatcher `k` has sent the pending signals of the thread `p`, which it took off the list.
abbrev sent : ℕ → ℕ → System → System
sent k p s = td_unlock k p (prepared p) (td_lock k p (sending p) (chosen p) s)

-- The main thread runs on the dispatcher 0 and has created the thread 2.
abbrev two_threads : System
two_threads = thread_create 0 1 (td_set_cxt 0 1 (sent 0 1 (get_next_thread 0 1 [] started)))

two_threads-Reachable : Reachable false two_threads
unfolding td_lock td_unlock
two_threads-Reachable =
    next _ _
      (next _ _
        (next _ _ (next _ _ (next _ _ start (choose 0 1 [] refl refl)) (send_lock 0 1 refl refl))
          (send_unlock 0 1 refl))
        (enter 0 1 refl))
      (create 0 1 refl)

-- The dispatcher 5 is about to switch to it.
abbrev before_switch : System
before_switch = sent 5 2 (get_next_thread 5 2 [] two_threads)

before_switch-Reachable : Reachable false before_switch
unfolding td_lock td_unlock
before_switch-Reachable =
    next _ _
      (next _ _ (next _ _ two_threads-Reachable (choose 5 2 [] refl refl))
        (send_lock 5 2 refl refl))
      (send_unlock 5 2 refl)

-- The main thread has been preempted in a thread_kill of the other one, which its dispatcher chooses next.
abbrev kill_preempted : System
kill_preempted = get_next_thread 0 2 (1 ∷ []) (
    enqueue 0 1 loop (
      td_ret_cxt 0 1 (kill_holds 2) (yielded 1)
        (td_lock 0 2 (signalling 1 2) (killing 1 2) (set_intr 0 2 true (killing 1 2) two_threads))))

kill_preempted-Reachable : Reachable false kill_preempted
unfolding td_lock td_unlock
kill_preempted-Reachable =
    next _ _
      (next _ _
        (next _ _
          (next _ _
            (next _ _ two_threads-Reachable (kill_call 0 1 2 (λ z. cc z) (omega arith) refl))
            (kill_lock 0 1 2 refl))
          (yield 0 1 (kill_holds 2) tt refl))
        (requeue 0 1 refl))
      (choose 0 2 (1 ∷ []) refl refl)

-- The main thread has joined it and waits, and the dispatcher 0 has released its lock.
abbrev main_waits : System
main_waits = td_unlock 0 2 loop (
    park_or_return 0 1 2 (
      join_test 0 1 2 (
        td_lock 0 2 (testing 1 2) (joining 1 2)
          (set_intr 0 1 true (joining 1 2) (td_set_cxt 5 2 before_switch)))))

main_waits-Reachable : Reachable false main_waits
unfolding td_lock td_unlock
main_waits-Reachable =
    next _ _
      (next _ _
        (next _ _
          (next _ _
            (next _ _ (next _ _ before_switch-Reachable (enter 5 2 refl))
              (join_call 0 1 2 (λ z. cc z) (omega arith) (λ z. cc z) (λ z. cc z) refl))
            (join_lock 0 1 2 refl))
          (join_joined 0 1 2 refl))
        (join_waits 0 1 2 refl))
      (join_parked 0 2 refl)

one_dispatcher_example : ◌≡◌ {A = ℕ} 5 5
unfolding td_lock td_unlock
one_dispatcher_example = one_dispatcher before_switch before_switch-Reachable 5 5 (λ z. cc z) refl

ready_waits_example :
    Distinct two_threads.mmrll
    × ((p : ℕ)
        → has p two_threads.mmrll ≡ true
        → (two_threads.saved p ≡ true)
          × (two_threads.over p ≡ false)
          × ((k : ℕ) → in_hand (two_threads.pc k) ≢ p))
ready_waits_example = ready_waits two_threads two_threads-Reachable

switches_alone_example :
    (before_switch.saved 2 ≡ true)
    × (has 2 before_switch.mmrll ≡ false)
    × ((j : ℕ) → in_hand (before_switch.pc j) ≡ 2 → j ≡ 5)
unfolding td_lock td_unlock
switches_alone_example = switches_alone before_switch before_switch-Reachable 5 2 refl

nobody_lost_example : Somewhere main_waits 1
unfolding td_lock td_unlock
nobody_lost_example = nobody_lost main_waits main_waits-Reachable 1 (λ z. cc z) (omega arith)

others_idle : (j : ℕ) → j ≢ 0 → kill_preempted.pc j ≡ loop
unfolding td_lock td_unlock
others_idle j n = let e : (j == 0) ≡ false = ground (arith, n) in simp e refl

others_idle_after :
    (j : ℕ) → j ≢ 0 → (td_lock 0 2 (sending 2) (chosen 2) kill_preempted).pc j ≡ loop
unfolding td_lock td_unlock
others_idle_after j n = let e : (j == 0) ≡ false = ground (arith, n) in simp e refl

-- One more round.
spins_for_ever_example :
    ((td_lock 0 2 (sending 2) (chosen 2) kill_preempted).pc 0 ≡ chosen 2)
    × ((td_lock 0 2 (sending 2) (chosen 2) kill_preempted).mem_lock 2 ≡ 0)
unfolding td_lock td_unlock
spins_for_ever_example =
    spins_for_ever kill_preempted kill_preempted-Reachable true 0 1 2 (λ z. cc z) refl refl refl
      (λ j n. others_idle j n) _
      (more kill_preempted _ none (send_lock 0 2 refl refl) (λ j n. others_idle_after j n))
