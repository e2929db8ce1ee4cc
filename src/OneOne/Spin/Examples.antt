-- ===== src/OneOne/Spin/Examples.antt =====
-- The thread 5 takes the spinlock while the thread 6, which does not hold it, calls unlock.
use libthreads_c.Base.{◌≡◌, false, refl, inl, arith}
use libthreads_c.OneOne.Spin.{
  System, Reachable, start, next, goto, spin_init, spin_acq_lock, spin_set_owner, spin_check_owner,
  locking, checking, call_lock, lock_round, lock_own, misuse_unlock, unlock_check,
}
use libthreads_c.OneOne.Spin.Exclusion.{spin_exclusion}

abbrev taken : System
taken =
    spin_set_owner 5 (goto 6 (checking false) (spin_acq_lock locking 5 (goto 5 locking spin_init)))

reached : Reachable (spin_check_owner false 6 taken)
reached =
    next _ _
      (next _ _
        (next _ _ (next _ _ (next _ _ start (call_lock 5 (ground arith) refl)) (lock_round 5 refl))
          (misuse_unlock 6 (ground arith) refl))
        (lock_own 5 refl))
      (unlock_check 6 false refl)

abbrev refused : System
refused = spin_check_owner false 6 taken

spin_exclusion_example : (refused.owner ≡ 5) × (refused.lock ≡ 0) × (refused.owner ≡ 5)
spin_exclusion_example = spin_exclusion refused 5 5 reached (inl refl) refl
