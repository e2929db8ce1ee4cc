-- ===== src/ManyMany/Dispatch/Places.antt =====
-- Where each thread is, between any two steps of the dispatchers: the invariant.
pub use libthreads_c.Base.Holders.{Excl, Excl-move, Excl-acquire, Excl-release}
use libthreads_c.Base.{ℕ, ◌≡◌, ◌≢◌, ◌<◌, Bool, true, false, ◌⊎◌, has, ◌==◌, Distinct}
use libthreads_c.ManyMany.Dispatch.{
  Pc, loop, chosen, sending, prepared, running, yielded, exiting, settling, leaving, waking,
  parking, joining, testing, registered, refused, returning, killing, signalling, enabling,
  resuming, kill_enables, inside, Context, plain, awaiting, kill_waits, kill_holds, join_holds,
  System,
}

-- The thread that the dispatcher has in hand: 0 for none. One that is over, or whose context is saved for another
-- thread's end, is in nobody's hand.
abbrev pub in_hand : Pc → ℕ
in_hand loop = 0
in_hand (chosen p) = p
in_hand (sending p) = p
in_hand (prepared p) = p
in_hand (running p) = p
in_hand (yielded p) = p
in_hand (exiting p) = p
in_hand (settling p) = p
in_hand (leaving p) = 0
in_hand (waking p) = 0
in_hand (parking p) = 0
in_hand (joining p q) = p
in_hand (testing p q) = p
in_hand (registered p q) = p
in_hand (refused p q) = p
in_hand (returning p q) = p
in_hand (killing p q) = p
in_hand (signalling p q) = p
in_hand (enabling p q) = p
in_hand (resuming p q) = p

-- The descriptor whose lock the dispatcher, or the thread that it runs, holds: 0 for none.
abbrev pub locked : Pc → ℕ
locked (sending p) = p
locked (settling p) = p
locked (leaving p) = p
locked (parking q) = q
locked (testing p q) = q
locked (registered p q) = q
locked (refused p q) = q
locked (returning p q) = q
locked (signalling p q) = q
locked _ = 0

-- The thread that is over, while its dispatcher looks for who waits for it: 0 for none.
abbrev pub ends : Pc → ℕ
ends (leaving p) = p
ends (waking p) = p
ends _ = 0

-- One dispatcher at most looks for who waits for a thread that is over.
abbrev pub OnceEach : (ℕ → Pc) → Type 0
OnceEach pc = (j k : ℕ) → ends (pc j) ≢ 0 → ends (pc j) ≡ ends (pc k) → j ≡ k

-- Where a thread can be: not created, in a dispatcher's hand, on the ready list, waiting for the end of
-- another, or over.
pub data Place : Type 0 where
  unborn listed gone : Place
  on waits_for : ℕ → Place

-- In nobody's hand, and to be run some time.
abbrev pub asleep : Place → Bool
asleep unborn = true
asleep listed = true
asleep (waits_for q) = true
asleep _ = false

-- The end of `q` is still to come, or the dispatcher `k` looks for who waits for it.
abbrev pub ToEnd : System → ℕ → Type 0
ToEnd s q = (s.over q ≡ false) ⊎ ((k : ℕ) × (ends (s.pc k) ≡ q))

abbrev pub At : System → ℕ → Place → Type 0
At s p unborn = s.created < p
At s p (on k) = in_hand (s.pc k) ≡ p
At s p listed = has p s.mmrll ≡ true
At s p (waits_for q) = (q ≢ 0) × (s.join_thread q ≡ p) × ToEnd s q
At s p gone = s.over p ≡ true

-- What the dispatcher `k` relies on at each point.
module _ (s : System) (place : ℕ → Place) (k : ℕ) where
  abbrev pub Hand : ℕ → Type 0
  Hand p = (p ≢ 0) × (place p ≡ on k)

  abbrev pub Rests : ℕ → Type 0
  Rests p = Hand p × (s.saved p ≡ true)

  abbrev pub Local : Pc → Type 0
  Local loop = Unit {0}
  Local (chosen p) = Rests p
  Local (sending p) = Rests p
  Local (prepared p) = Rests p
  Local (yielded p) = Rests p
  Local (running p) = Hand p
  Local (exiting p) = Hand p
  Local (settling p) = Hand p
  Local (parking q) = q ≢ 0
  Local (joining p q) = Hand p × (q ≢ 0)
  Local (testing p q) = Hand p × (q ≢ 0)
  Local (killing p q) = Hand p × (q ≢ 0)
  Local (signalling p q) = Hand p × (q ≢ 0)
  Local (enabling p q) = Hand p × (q ≢ 0)
  Local (resuming p q) = Hand p × (q ≢ 0)
  Local (refused p q) = Hand p × (q ≢ 0)
  Local (returning p q) = Hand p × (q ≢ 0)
  Local (registered p q) = Hand p × (q ≢ 0) × (s.join_thread q ≡ p)
  Local (leaving q) =
      (q ≢ 0) × (s.over q ≡ true) × (s.join_thread q ≢ 0 → place (s.join_thread q) ≡ waits_for q)
  Local (waking q) =
      (q ≢ 0) × (s.over q ≡ true) × (s.join_thread q ≢ 0) × (place (s.join_thread q) ≡ waits_for q)

-- `pending`: the joiner of a target that is not over waits, or is about to.
pub record Inv (s : System) (place : ℕ → Place) : Type 0 where
  pub at : (p : ℕ) → p ≢ 0 → At s p (place p)
  pub local : (k : ℕ) → Local s place k (s.pc k)
  pub ready : (p : ℕ) → has p s.mmrll ≡ true → (p ≢ 0) × (place p ≡ listed)
  pub distinct : Distinct s.mmrll
  pub ended : (p : ℕ) → s.over p ≡ true → place p ≡ gone
  pub fresh : (p : ℕ) → s.created < p → place p ≡ unborn
  pub kept : (p : ℕ) → asleep (place p) ≡ true → s.saved p ≡ true
  pub once : OnceEach s.pc
  pub pending :
      (q : ℕ)
      → q ≢ 0
      → s.join_thread q ≢ 0
      → s.over q ≡ false
      → ((k : ℕ) × (s.pc k ≡ registered (s.join_thread q) q))
        ⊎ (place (s.join_thread q) ≡ waits_for q)

-- The descriptor whose lock a thread that was preempted holds: 0 for none.
abbrev pub context_lock : Context → ℕ
context_lock (kill_holds q) = q
context_lock (join_holds q) = q
context_lock (inside w at) = locked at
context_lock _ = 0

-- The target of the rest of a call; a thread that nothing disturbs is not preempted inside thread_join.
abbrev pub Named : Context → Type 0
Named plain = Unit {0}
Named (awaiting q) = q ≢ 0
Named (kill_waits q) = q ≢ 0
Named (kill_holds q) = q ≢ 0
Named (join_holds q) = q ≢ 0
Named (kill_enables q) = q ≢ 0
Named (inside w at) = ⊥

-- A lock that a preempted thread holds is taken, and nobody else's.
abbrev pub Apart : (ℕ → ℕ) → (ℕ → Context) → (ℕ → Pc) → Type 0
Apart mem_lock context pc =
    (p q : ℕ)
    → q ≢ 0
    → context_lock (context p) ≡ q
    → (mem_lock q ≡ 0)
      × ((k : ℕ) → locked (pc k) ≢ q)
      × ((r : ℕ) → context_lock (context r) ≡ q → r ≡ p)

-- Each descriptor's lock has one holder at most.
pub record Locks (mem_lock : ℕ → ℕ) (context : ℕ → Context) (pc : ℕ → Pc) : Type 0 where
  pub held : (q : ℕ) → q ≢ 0 → Excl (λ p. locked p == q) (mem_lock q) pc
  pub named : (p : ℕ) → Named (context p)
  pub apart : Apart mem_lock context pc
