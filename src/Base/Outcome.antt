-- ===== src/Base/Outcome.antt =====
-- How a piece of code of the libraries ends, over any type of state. many-many and hybrid are commands
-- over it.
use libthreads_c.Base.{◌≡◌, refl, Bool, true, false, Option, none, some}

-- It returns; it swaps to the dispatcher, or stops in the kernel, with the rest of it saved as its
-- context; it goes away for good and saves nothing; it waits on a word that nobody changes; or it faults
-- (a NULL or dangling pointer, an assert that fails).
pub data Outcome (W A : Type 0) : Type 0 where
  ok : A → W → Outcome W A
  swap : W → (W → Outcome W A) → Outcome W A
  leave : W → Outcome W A
  spins : Outcome W A
  fault : Outcome W A

module _ {W A : Type 0} where
  abbrev pub pure : A → W → Outcome W A
  pure a w = ok a w

  -- A loop that spins on a lock word: `none` never ends.
  abbrev pub or_spins : Option A → W → Outcome W A
  or_spins none w = spins
  or_spins (some a) w = ok a w

  -- An assert on a result: `none` ends the program.
  abbrev pub or_faults : Option A → W → Outcome W A
  or_faults none w = fault
  or_faults (some a) w = ok a w

module _ {W A B : Type 0} where
  abbrev pub and_then : Outcome W A → (A → W → Outcome W B) → Outcome W B
  and_then (ok a w) f = f a w
  and_then (swap w k) f = swap w (λ w'. and_then (k w') f)
  and_then (leave w) f = leave w
  and_then spins f = spins
  and_then fault f = fault

  infixl 5 ◌>>=◌ ◌>>◌
  abbrev pub ◌>>=◌ : (W → Outcome W A) → (A → W → Outcome W B) → W → Outcome W B
  m >>= f = λ w. and_then (m w) f

  abbrev pub ◌>>◌ : (W → Outcome W A) → (W → Outcome W B) → W → Outcome W B
  m >> n = m >>= λ _. n

  -- What the dispatcher, or the kernel, does with a run that came back to it: by a swap, with the saved
  -- rest, or for good. Any other end of the run stays as it is, as a fault.
  abbrev pub on_swap : Outcome W A → (W → (W → Outcome W A) → Outcome W B) → Outcome W B
  on_swap (ok a w) f = fault
  on_swap (swap w k) f = f w k
  on_swap (leave w) f = fault
  on_swap spins f = spins
  on_swap fault f = fault

  abbrev pub on_leave : Outcome W A → (W → Outcome W B) → Outcome W B
  on_leave (ok a w) f = fault
  on_leave (swap w k) f = fault
  on_leave (leave w) f = f w
  on_leave spins f = spins
  on_leave fault f = fault

module _ {W : Type 0} where
  abbrev pub modify : (W → W) → W → Outcome W (Unit {0})
  modify f w = ok tt (f w)

  abbrev pub assert : Bool → W → Outcome W (Unit {0})
  assert true w = ok tt w
  assert false w = fault

-- How a run ends, with what holds then; each says that the run ends so. `Swaps P k` also names the
-- rest that was saved.
module _ {W A : Type 0} where
  abbrev pub Returns : (A → W → Type 0) → Outcome W A → Type 0
  Returns P (ok a w) = P a w
  Returns P (swap w k) = ⊥
  Returns P (leave w) = ⊥
  Returns P spins = ⊥
  Returns P fault = ⊥

  abbrev pub Swaps : (W → Type 0) → (W → Outcome W A) → Outcome W A → Type 0
  Swaps P rest (ok a w) = ⊥
  Swaps P rest (swap w k) = P w × ((w' : W) → k w' ≡ rest w')
  Swaps P rest (leave w) = ⊥
  Swaps P rest spins = ⊥
  Swaps P rest fault = ⊥

  abbrev pub Leaves : (W → Type 0) → Outcome W A → Type 0
  Leaves P (ok a w) = ⊥
  Leaves P (swap w k) = ⊥
  Leaves P (leave w) = P w
  Leaves P spins = ⊥
  Leaves P fault = ⊥

  pub Returns-mono :
      (P Q : A → W → Type 0) (r : Outcome W A)
      → Returns P r
      → ((a : A) (w : W) → P a w → Q a w)
      → Returns Q r
  Returns-mono P Q (ok a w) h weaken = weaken a w h
  Returns-mono P Q (swap w k) h weaken = absurd h
  Returns-mono P Q (leave w) h weaken = absurd h
  Returns-mono P Q spins h weaken = absurd h
  Returns-mono P Q fault h weaken = absurd h

module _ {W A B : Type 0} where
  -- A run that returns, followed by a command that returns.
  pub Returns-bind :
      (P : A → W → Type 0) (Q : B → W → Type 0) (r : Outcome W A) (f : A → W → Outcome W B)
      → Returns P r
      → ((a : A) (w : W) → P a w → Returns Q (f a w))
      → Returns Q (and_then r f)
  Returns-bind P Q (ok a w) f h next = next a w h
  Returns-bind P Q (swap w k) f h next = absurd h
  Returns-bind P Q (leave w) f h next = absurd h
  Returns-bind P Q spins f h next = absurd h
  Returns-bind P Q fault f h next = absurd h

  -- A run that returns, followed by a command that spins.
  pub spins-bind :
      (P : A → W → Type 0) (r : Outcome W A) (f : A → W → Outcome W B)
      → Returns P r
      → ((a : A) (w : W) → P a w → f a w ≡ spins)
      → and_then r f ≡ spins
  spins-bind P (ok a w) f h next = next a w h
  spins-bind P (swap w k) f h next = absurd h
  spins-bind P (leave w) f h next = absurd h
  spins-bind P spins f h next = refl
  spins-bind P fault f h next = absurd h

  pub on_swap-Returns :
      (P : W → Type 0) (Q : B → W → Type 0) (r : Outcome W A) (rest : W → Outcome W A)
      (f : W → (W → Outcome W A) → Outcome W B)
      → Swaps P rest r
      → ((g : W) (k : W → Outcome W A) → P g → ((v : W) → k v ≡ rest v) → Returns Q (f g k))
      → Returns Q (on_swap r f)
  on_swap-Returns P Q (ok a w) rest f h next = absurd h
  on_swap-Returns P Q (swap w k) rest f h next = next w k h.0 h.1
  on_swap-Returns P Q (leave w) rest f h next = absurd h
  on_swap-Returns P Q spins rest f h next = absurd h
  on_swap-Returns P Q fault rest f h next = absurd h

  pub on_leave-Returns :
      (P : W → Type 0) (Q : B → W → Type 0) (r : Outcome W A) (f : W → Outcome W B)
      → Leaves P r
      → ((g : W) → P g → Returns Q (f g))
      → Returns Q (on_leave r f)
  on_leave-Returns P Q (ok a w) f h next = absurd h
  on_leave-Returns P Q (swap w k) f h next = absurd h
  on_leave-Returns P Q (leave w) f h next = next w h
  on_leave-Returns P Q spins f h next = absurd h
  on_leave-Returns P Q fault f h next = absurd h
