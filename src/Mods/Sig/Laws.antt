-- ===== src/Mods/Sig/Laws.antt =====
-- What the dispatchers use the wrappers for: with all signals blocked, a signal that one sends to its own kernel
-- thread waits until a user thread that takes it runs.
use libthreads_c.Base.{ℕ, ◌≡◌, ◌≢◌, Bool, true, false, ◌&&◌, ◌==◌, not, ltb, List, [], ◌∷◌}
use libthreads_c.Mods.Sig.{SigSet, block, unblock, Kernel, sig_send}

-- What signal(7), sigprocmask(2), sigpending(2) and tgkill(2) say of the calling kernel thread, whose id is
-- `tid`, and sigfillset(3). `blocked` is its signal mask. SIGKILL and SIGSTOP cannot be blocked, nor, by nptl(7),
-- the signals 32 and 33, which sigfillset leaves out of the set.
abbrev pub can_wait : ℕ → Bool
can_wait sig =
    ltb 0 sig
    && ltb sig 65
    && not (sig == 9)
    && not (sig == 19)
    && not (sig == 32)
    && not (sig == 33)

pub record Documented (k : Kernel) (tid : ℕ) : Type 0 where
  pub blocked : k.KernelState → SigSet
  pub fills : (sig : ℕ) → can_wait sig ≡ true → k.sigfillset sig ≡ true
  pub block_blocks :
      (s : k.KernelState) (set : SigSet) (sig : ℕ)
      → set sig ≡ true
      → can_wait sig ≡ true
      → blocked (k.sigprocmask block set s) sig ≡ true
  pub block_keeps :
      (s : k.KernelState) (set : SigSet) → k.sigpending (k.sigprocmask block set s) ≡ k.sigpending s
  pub unblock_delivers :
      (s : k.KernelState) (set : SigSet) (sig : ℕ)
      → set sig ≡ true
      → can_wait sig ≡ true
      → k.sigpending (k.sigprocmask unblock set s) sig ≡ false
  pub unblock_adds_none :
      (s : k.KernelState) (set : SigSet) (sig : ℕ)
      → k.sigpending s sig ≡ false
      → k.sigpending (k.sigprocmask unblock set s) sig ≡ false
  pub sends_one :
      (s : k.KernelState) (pid sent sig : ℕ)
      → sig ≢ sent
      → k.sigpending (k.tgkill pid tid sent s) sig ≡ k.sigpending s sig
  pub sent_waits :
      (s : k.KernelState) (sig : ℕ)
      → blocked s sig ≡ true
      → can_wait sig ≡ true
      → k.sigpending (k.tgkill (k.getpid s) tid sig s) sig ≡ true
  pub send_keeps_mask :
      (s : k.KernelState) (pid sig : ℕ) → blocked (k.tgkill pid tid sig s) ≡ blocked s

-- The signals of a list, sent one after the other.
abbrev pub send_all : (k : Kernel) → ℕ → List ℕ → k.KernelState → k.KernelState
send_all k tid [] s = s
send_all k tid (sig ∷ more) s = send_all k tid more (sig_send k tid sig s)

abbrev pub any_sent : List ℕ → ℕ
any_sent [] = 0
any_sent (sig ∷ more) = 1

abbrev pub AllWait : List ℕ → Type 0
AllWait [] = Unit
AllWait (sig ∷ more) = (can_wait sig ≡ true) × AllWait more
