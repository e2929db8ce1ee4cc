-- ===== src/Mods/Sig/Examples.antt =====
-- A kernel that keeps the mask and the pending signals of one kernel thread.
use libthreads_c.Base.{true, false, ◌&&◌, not, if◌then◌else◌, update, ◌==◌}
use libthreads_c.Mods.Sig.{SigSet, How, block, unblock, Kernel}

abbrev masks : How → SigSet → SigSet × SigSet → SigSet × SigSet
masks block set (mask, pending) = (λ sig. if set sig then true else mask sig, pending)
masks unblock set (mask, pending) =
    (λ sig. mask sig && not (set sig), λ sig. if set sig then false else pending sig)

abbrev small : Kernel
small = record {
  KernelState = SigSet × SigSet;
  sigprocmask = masks;
  tgkill = λ pid tid sig s. (s.0, if s.0 sig then update s.1 sig true else s.1);
  sigpending = λ s. s.1;
  getpid = λ s. 50;
  sigfillset = λ sig. not (sig == 32) && not (sig == 33);
}

quiet : SigSet × SigSet
quiet = (λ sig. false, λ sig. false)
