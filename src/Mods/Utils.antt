-- ===== src/Mods/Utils.antt =====
-- mods/utils.h: the atomic compare and exchange that every lock of the libraries is built on.
-- An `int` is its 32-bit pattern, so -1 is 2 ^ 32 - 1.
use libthreads_c.Base.{ℕ, ◌-◌, ◌^◌, Bool, true, false, ◌==◌, if◌then◌else◌}

abbrev pub minus_one : ℕ
minus_one = 2 ^ 32 - 1

-- `*addr` is passed in and handed back; the flag is what the C function returns.
abbrev pub atomic_cas : ℕ → ℕ → ℕ → Bool × ℕ
atomic_cas addr old_val new_val = if addr == old_val then (true, new_val) else (false, addr)
