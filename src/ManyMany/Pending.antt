-- ===== src/ManyMany/Pending.antt =====
-- many-many/src/thread_descr.h: the mask of pending signals of a thread, an `int` read as its
-- 32-bit pattern. Signal `signo` is bit `signo - 1`. `ffs` is the C library's.
pub mod Bits
pub mod Laws
use libthreads_c.Base.{ℕ, zero, suc, ◌+◌, ◌-◌, ◌/◌, ◌%◌, ◌^◌, Bool, not, ◌==◌, if◌then◌else◌}
use Prim.Native.Nat.{bit_or, bit_xor}

-- The position of the lowest bit that is set, counted from 1, among `n` bits; 0 if there is none.
pub ffs_from : ℕ → ℕ → ℕ
ffs_from zero m = 0
ffs_from (suc n) m = let higher = ffs_from n (m / 2) in if m % 2 == 1 then 1 else higher + 1

unfoldable pub ffs : ℕ → ℕ
unfolding ffs_from
ffs m = if m == 0 then 0 else ffs_from 32 m

abbrev pub bit_of : ℕ → ℕ
bit_of signo = 2 ^ (signo - 1)

unfoldable pub td_set_sig_pending : ℕ → ℕ → ℕ
td_set_sig_pending pend_sig signo = bit_or pend_sig (bit_of signo)

unfoldable pub td_is_sig_pending : ℕ → Bool
td_is_sig_pending pend_sig = not (pend_sig == 0)

-- The first pending signal, and the mask without it.
unfoldable pub td_get_sig_pending : ℕ → ℕ × ℕ
td_get_sig_pending pend_sig = let signo = ffs pend_sig in (signo, bit_xor pend_sig (bit_of signo))
