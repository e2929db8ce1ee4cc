-- ===== src/Mods/Sig.antt =====
-- many-many/src/mods/sig.c: the wrappers of the system calls on signals, for the kernel thread that calls them.
-- The kernel is a parameter: what the calls do to its state, and which signals the C library puts in a full set. A `sigset_t` is the set of its signal numbers.
mod Laws
mod Examples
use libthreads_c.Base.{ℕ, zero, suc, Bool, true, false, ◌||◌, if◌then◌else◌}

abbrev pub SigSet : Type 0
SigSet = ℕ → Bool

-- SIG_BLOCK and SIG_UNBLOCK
pub data How : Type 0 where
  block unblock : How

pub record Kernel : Type 1 where
  pub KernelState : Type 0
  pub sigprocmask : How → SigSet → KernelState → KernelState
  pub tgkill : (pid tid sig : ℕ) → KernelState → KernelState
  pub sigpending : KernelState → SigSet
  pub getpid : KernelState → ℕ
  pub sigfillset : SigSet

-- The C library's test on sets. Linux numbers its signals from 1 to 64.
abbrev pub has_below : ℕ → SigSet → Bool
has_below zero mask = false
has_below (suc n) mask = mask (suc n) || has_below n mask

unfoldable pub sigisemptyset : SigSet → Bool
sigisemptyset mask = if has_below 64 mask then false else true

module _ (k : Kernel) where
  open k use {KernelState, sigprocmask, tgkill, sigpending, getpid, sigfillset}

  unfoldable pub sig_block_all : KernelState → KernelState
  sig_block_all = sigprocmask block sigfillset

  unfoldable pub sig_unblock_all : KernelState → KernelState
  sig_unblock_all = sigprocmask unblock sigfillset

  unfoldable pub sig_send : ℕ → ℕ → KernelState → KernelState
  sig_send tid sig s = tgkill (getpid s) tid sig s

  -- `!(sigisemptyset(&mask))`; the set that is filled in before the call is overwritten by it.
  unfoldable pub sig_is_pending : KernelState → ℕ
  sig_is_pending s = if sigisemptyset (sigpending s) then 0 else 1
