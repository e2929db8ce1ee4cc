-- ===== src/Base/Lists.antt =====
-- Lists of numbers: length over the native numbers, membership as a test.
use Prim.Native.Nat.{ℕ, suc}
use mathlib.Core.Path.{◌≡◌, refl}
use mathlib.Core.Bool.{Bool, false, ◌||◌}
use mathlib.Core.List.{List, [], ◌∷◌, ◌++◌}
use native.Mathlib.Omega.{arith}
use libthreads_c.Base.Tests.{◌==◌}

module _ {ℓ} {A : Type ℓ} where
  abbrev pub length : List A → ℕ
  length [] = 0
  length (x ∷ xs) = suc (length xs)

abbrev pub has : ℕ → List ℕ → Bool
has a [] = false
has a (x ∷ xs) = (a == x) || has a xs

pub has-append : (a : ℕ) (xs ys : List ℕ) → has a (xs ++ ys) ≡ (has a xs || has a ys)
has-append a [] ys = refl
has-append a (x ∷ xs) ys = ground (arith, has-append a xs ys)

abbrev pub Distinct : List ℕ → Type 0
Distinct [] = Unit
Distinct (p ∷ rest) = (has p rest ≡ false) × Distinct rest

pub Distinct-snoc : (l : List ℕ) (p : ℕ) → Distinct l → has p l ≡ false → Distinct (l ++ p ∷ [])
Distinct-snoc [] p d h = (refl, tt)
Distinct-snoc (x ∷ l) p (n, d) h =
    (ground (arith, has-append x l (p ∷ [])), Distinct-snoc l p d (ground arith))
