-- ===== src/ManyMany/Pending/Bits.antt =====
-- `|` and `^` with a power of two change one bit, at every width.
use Prim.Native.Nat.{bit_or, bit_xor, digits, bit_or-bitwise, bit_xor-bitwise, differ, max}
use native.Mathlib.Nat.{pow-suc}
use libthreads_c.Base.{
  ℕ, zero, suc, ◌+◌, ◌-◌, ◌*◌, ◌/◌, ◌%◌, ◌^◌, ◌≤◌, ◌<◌, ◌≡◌, ◌∙◌, refl, Bool, ◌||◌, not, arith,
  ◌==◌, if◌then◌else◌,
}

-- Bit `k` of `m`.
abbrev pub bit : ℕ → ℕ → Bool
bit zero m = m % 2 == 1
bit (suc k) m = bit k (m / 2)

-- Bit `k` of `m` set, and bit `k` of `m` flipped, digit by digit.
abbrev pub set_bit : ℕ → ℕ → ℕ
set_bit zero m = m / 2 * 2 + 1
set_bit (suc k) m = set_bit k (m / 2) * 2 + m % 2

abbrev pub flip_bit : ℕ → ℕ → ℕ
flip_bit zero m = m / 2 * 2 + (1 - m % 2)
flip_bit (suc k) m = flip_bit k (m / 2) * 2 + m % 2

-- An operation on two binary digits that keeps a digit against 0.
abbrev Keeps : (ℕ → ℕ → ℕ) → Type 0
Keeps f = (x : ℕ) → f x 0 ≡ x

module _ (f : ℕ → ℕ → ℕ) (keeps : Keeps f) where
  -- `n` is the count of digits to go.
  digits-zero : (n a : ℕ) → a ≤ n → digits (λ b. b) f n a 0 ≡ a
  digits-zero zero a h = omega arith
  digits-zero (suc n) zero h = refl
  digits-zero (suc n) (suc a) h =
      omega (arith, digits-zero n (suc a / 2) (omega arith), keeps (suc a % 2))

half-pow : (k : ℕ) → (2 ^ suc k / 2 ≡ 2 ^ k) × (2 ^ suc k % 2 ≡ 0)
half-pow k = (omega (arith, pow-suc 2 k), omega (arith, pow-suc 2 k))

set_bit-zero : (k : ℕ) → set_bit k 0 ≡ 2 ^ k
set_bit-zero zero = refl
set_bit-zero (suc k) = omega (arith, set_bit-zero k, pow-suc 2 k)

flip_bit-zero : (k : ℕ) → flip_bit k 0 ≡ 2 ^ k
flip_bit-zero zero = refl
flip_bit-zero (suc k) = omega (arith, flip_bit-zero k, pow-suc 2 k)

or_digits : (k n a : ℕ) → a ≤ n → digits (λ b. b) max n a (2 ^ k) ≡ set_bit k a
or_digits k zero zero h = rw (set_bit-zero k)
or_digits k zero (suc a) h = absurd (omega arith)
or_digits k (suc n) zero h = rw (set_bit-zero k)
or_digits zero (suc n) (suc a) h =
    omega (arith, digits-zero max (λ x. omega arith) n (suc a / 2) (omega arith))
or_digits (suc k) (suc n) (suc a) h =
    rw ((half-pow k).0, (half-pow k).1) (omega (arith, or_digits k n (suc a / 2) (omega arith)))

differ-zero : Keeps differ
differ-zero zero = refl
differ-zero (suc x) = refl

differ-one : (x : ℕ) → x < 2 → differ x 1 ≡ 1 - x
differ-one zero h = refl
differ-one (suc zero) h = refl
differ-one (suc (suc x)) h = absurd (omega arith)

xor_digits : (k n a : ℕ) → a ≤ n → digits (λ b. b) differ n a (2 ^ k) ≡ flip_bit k a
xor_digits k zero zero h = rw (flip_bit-zero k)
xor_digits k zero (suc a) h = absurd (omega arith)
xor_digits k (suc n) zero h = rw (flip_bit-zero k)
xor_digits zero (suc n) (suc a) h = omega (
  arith,
  digits-zero differ differ-zero n (suc a / 2) (omega arith),
  differ-one (suc a % 2) (omega arith),
)
xor_digits (suc k) (suc n) (suc a) h =
    rw ((half-pow k).0, (half-pow k).1)
      (omega (arith, xor_digits k n (suc a / 2) (omega arith), differ-zero (suc a % 2)))

pub bit_or-pow : (k m : ℕ) → bit_or m (2 ^ k) ≡ set_bit k m
bit_or-pow k m = bit_or-bitwise m (2 ^ k) ∙ or_digits k m m (omega arith)

pub bit_xor-pow : (k m : ℕ) → bit_xor m (2 ^ k) ≡ flip_bit k m
bit_xor-pow k m = bit_xor-bitwise m (2 ^ k) ∙ xor_digits k m m (omega arith)

half-odd : (m : ℕ) → (m / 2 * 2 + 1) / 2 ≡ m / 2
half-odd m = omega arith

pub half-digit : (a m : ℕ) → (a * 2 + m % 2) / 2 ≡ a
half-digit a m = omega arith

pub half-flipped : (m : ℕ) → (m / 2 * 2 + (1 - m % 2)) / 2 ≡ m / 2
half-flipped m = omega arith

-- Setting a bit sets that bit and no other.
pub bit-set_bit : (j k m : ℕ) → bit j (set_bit k m) ≡ ((j == k) || bit j m)
bit-set_bit zero zero m = ground arith
bit-set_bit zero (suc k) m = ground arith
bit-set_bit (suc j) zero m = rw (half-odd m) (ground arith)
bit-set_bit (suc j) (suc k) m =
    rw (half-digit (set_bit k (m / 2)) m, bit-set_bit j k (m / 2)) (ground arith)

-- Flipping a bit flips that bit and no other.
pub bit-flip_bit : (j k m : ℕ) → bit j (flip_bit k m) ≡ (if j == k then not (bit j m) else bit j m)
bit-flip_bit zero zero m = ground arith
bit-flip_bit zero (suc k) m = ground arith
bit-flip_bit (suc j) zero m = rw (half-flipped m) (ground arith)
bit-flip_bit (suc j) (suc k) m =
    rw (half-digit (flip_bit k (m / 2)) m, bit-flip_bit j k (m / 2)) (ground arith)

-- A mask of `n` bits stays one.
pub set_bit-lt : (n k m : ℕ) → k < n → m < 2 ^ n → set_bit k m < 2 ^ n
set_bit-lt zero k m h fits = absurd (omega arith)
set_bit-lt (suc n) zero m h fits = omega (arith, pow-suc 2 n)
set_bit-lt (suc n) (suc k) m h fits =
    let p = pow-suc 2 n in omega (arith, p, set_bit-lt n k (m / 2) (omega arith) (omega arith))

pub flip_bit-lt : (n k m : ℕ) → k < n → m < 2 ^ n → flip_bit k m < 2 ^ n
flip_bit-lt zero k m h fits = absurd (omega arith)
flip_bit-lt (suc n) zero m h fits = omega (arith, pow-suc 2 n)
flip_bit-lt (suc n) (suc k) m h fits =
    let p = pow-suc 2 n in omega (arith, p, flip_bit-lt n k (m / 2) (omega arith) (omega arith))
