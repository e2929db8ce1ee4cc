-- ===== src/OneOne/Mutex/Examples.antt =====
-- A run of two threads on the futex mutex: 1 takes it, 2 goes to sleep on it, 1 gives it back.
use libthreads_c.Base.{ℕ, ◌≡◌, ◌≢◌, refl, ◌⊎◌, arith}
use libthreads_c.OneOne.Mutex.{
  locking, waiting, inside, waking, System, goto, mut_init, mut_acq_lock, mut_wait, set_owner,
  check_owner, clear_owner, mut_rel_lock, call_lock, lock_cas, lock_wait, lock_returns,
  unlock_inside, unlock_clear, unlock_release, Reachable, start, next,
}
use libthreads_c.OneOne.Mutex.Exclusion.{mutual_exclusion}
use libthreads_c.OneOne.Mutex.Wakeup.{no_lost_wakeup}

abbrev first : ℕ
first = 1

abbrev taken : System
taken = set_owner 1 (mut_acq_lock 1 waiting (goto 1 locking mut_init))

taken-Reachable : Reachable taken
taken-Reachable =
    next _ _ (next _ _ (next _ _ start (call_lock 1 refl)) (lock_cas 1 refl))
      (lock_returns 1 (ground arith) refl)

abbrev slept_on : System
slept_on = mut_wait 2 (mut_acq_lock 2 waiting (goto 2 locking taken))

abbrev given_back : System
given_back = mut_rel_lock 1 (clear_owner 1 (check_owner 1 slept_on))

given_back-Reachable : Reachable given_back
given_back-Reachable =
    next _ _
      (next _ _
        (next _ _
          (next _ _ (next _ _ (next _ _ taken-Reachable (call_lock 2 refl)) (lock_cas 2 refl))
            (lock_wait 2 refl))
          (unlock_inside 1 (ground arith) refl))
        (unlock_clear 1 refl))
      (unlock_release 1 refl)

mutual_exclusion_example :
    (first ≡ first)
    × (taken.pc 1 ≡ inside → taken.owner ≡ 1)
    × ((v : ℕ) → v ≢ 0 → v ≢ 1 → check_owner v taken ≡ taken)
mutual_exclusion_example = mutual_exclusion taken 1 1 taken-Reachable refl refl

no_lost_wakeup_example :
    (v : ℕ) × ((given_back.pc v ≡ locking)
      ⊎ (given_back.pc v ≡ waiting)
      ⊎ (given_back.pc v ≡ waking))
no_lost_wakeup_example = no_lost_wakeup given_back 2 given_back-Reachable refl refl
