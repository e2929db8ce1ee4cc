-- ===== src/ManyMany/Contend/Examples.antt =====
-- The thread 7 has the mutex, 9 waits for it and is parked, and 7 hands it over.
use libthreads_c.Base.{ℕ, ◌≡◌, ◌≢◌, refl, true, false}
use libthreads_c.ManyMany.Contend.{
  locking, testing, inside, parking, parked, unlocking, checking, denied, System, goto, mut_init,
  mut_lock, mut_unlock, lock_or_wait, check_owner, call_lock, lock_round, lock_tests, lock_returns,
  lock_switches, post_wait, call_unlock, unlock_round, unlock_checks, Reachable, start, next,
}
use libthreads_c.ManyMany.Contend.Order.{within, one_inside, handed_parked}

abbrev one_has_it : System
one_has_it =
    mut_unlock 7 inside (lock_or_wait 7 (mut_lock 7 testing locking (goto 7 locking mut_init)))

one_has_it-Reachable : Reachable one_has_it
unfolding mut_lock mut_unlock
one_has_it-Reachable =
    next _ _
      (next _ _ (next _ _ (next _ _ start (call_lock 7 (λ z. cc z) refl)) (lock_round 7 refl))
        (lock_tests 7 refl))
      (lock_returns 7 refl)

abbrev one_waits : System
one_waits =
    mut_unlock 9 parked
      (goto 9 parking (lock_or_wait 9 (mut_lock 9 testing locking (goto 9 locking one_has_it))))

one_waits-Reachable : Reachable one_waits
unfolding mut_lock mut_unlock
one_waits-Reachable =
    next _ _
      (next _ _
        (next _ _
          (next _ _ (next _ _ one_has_it-Reachable (call_lock 9 (λ z. cc z) refl))
            (lock_round 9 refl))
          (lock_tests 9 refl))
        (lock_switches 9 refl))
      (post_wait 9 refl)

abbrev handing : System
handing =
    check_owner 7 true
      (mut_lock 7 (checking true) (unlocking true) (goto 7 (unlocking true) one_waits))

handing-Reachable : Reachable handing
unfolding mut_lock mut_unlock
handing-Reachable =
    next _ _
      (next _ _ (next _ _ one_waits-Reachable (call_unlock 7 refl)) (unlock_round 7 true refl))
      (unlock_checks 7 true refl)

one_inside_example :
    ((u : ℕ)
      → within (one_waits.pc 7) ≡ true
      → within (one_waits.pc u) ≡ true
      → (u ≡ 7) × (one_waits.owner ≡ 7))
    × (one_waits.pc 7 ≢ denied true)
one_inside_example = one_inside one_waits one_waits-Reachable 7

handed_parked_example : (handing.pc 9 ≡ parked) × (handing.owner ≡ 9) × (handing.ready 9 ≡ false)
unfolding mut_lock mut_unlock
handed_parked_example = handed_parked handing handing-Reachable 7 9 refl
