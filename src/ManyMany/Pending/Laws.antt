-- ===== src/ManyMany/Pending/Laws.antt =====
-- The mask as a set of signals: one more is put in, and the least one is taken out.
use Prim.Native.Nat.{bit_or}
use native.Mathlib.Nat.{pow-suc}
use libthreads_c.Base.{
  ℕ, zero, suc, ◌+◌, ◌-◌, ◌*◌, ◌/◌, ◌%◌, ◌^◌, ◌≤◌, ◌<◌, ◌≡◌, ◌≢◌, ◌∙◌, ap, subst, refl, true, false,
  ◌||◌, List, [], ◌∷◌, arith, ◌==◌, if◌then◌else◌, has, length, Bool-cases, inl, inr,
}
use libthreads_c.ManyMany.Pending.{ffs_from, ffs, td_set_sig_pending, td_get_sig_pending}
use libthreads_c.ManyMany.Pending.Bits.{
  bit, flip_bit, bit_or-pow, bit_xor-pow, bit-set_bit, flip_bit-lt, half-digit, half-flipped,
  set_bit-lt,
}

-- The signals of a mask of `n` bits in ascending order, each counted from `base`.
unfoldable pub signals_from : ℕ → ℕ → ℕ → List ℕ
signals_from zero base m = []
signals_from (suc n) base m =
    let rest = signals_from n (base + 1) (m / 2) in if m % 2 == 1 then (base + 1) ∷ rest else rest

unfoldable pub signals : ℕ → List ℕ
unfolding signals_from
signals pend_sig = signals_from 32 0 pend_sig

pub ffs_from_bounds : (n m : ℕ) → m ≢ 0 → m < 2 ^ n → (0 < ffs_from n m) × (ffs_from n m ≤ n)
unfolding ffs_from
ffs_from_bounds zero m ne fits = absurd (omega arith)
ffs_from_bounds (suc n) m ne fits =
    let p = pow-suc 2 n in
    elim (Bool-cases (m % 2 == 1)) [
      | inl odd ↦ rw odd (omega arith, omega arith)
      | inr even ↦
          let ih = ffs_from_bounds n (m / 2) (ground arith) (omega arith) in
          rw even (omega arith, omega arith)
    ]

flip_bit-next : (s m : ℕ) → 0 < s → flip_bit (s + 1 - 1) m ≡ flip_bit (s - 1) (m / 2) * 2 + m % 2
flip_bit-next zero m h = absurd (omega arith)
flip_bit-next (suc k) m h =
    let e : suc k + 1 - 1 ≡ suc k = omega arith in
    let e' : suc k - 1 ≡ k = omega arith in rw (e, e')

flipped-even : (m : ℕ) → (m % 2 == 1) ≡ true → ((m / 2 * 2 + (1 - m % 2)) % 2 == 1) ≡ false
flipped-even m odd = ground arith

digit-kept : (a m : ℕ) → ((a * 2 + m % 2) % 2 == 1) ≡ (m % 2 == 1)
digit-kept a m = ground arith

-- Taking out the first signal leaves the list of the others.
pub signals_from-first :
    (n base m : ℕ)
    → m ≢ 0
    → m < 2 ^ n
    → signals_from n base m
      ≡ (base + ffs_from n m) ∷ signals_from n base (flip_bit (ffs_from n m - 1) m)
unfolding signals_from ffs_from
signals_from-first zero base m ne fits = absurd (omega arith)
signals_from-first (suc n) base m ne fits =
    let p = pow-suc 2 n in
    elim (Bool-cases (m % 2 == 1)) [
      | inl odd ↦ rw odd (rw (flipped-even m odd, half-flipped m))
      | inr even ↦
          let s : ℕ = ffs_from n (m / 2) in
          let (pos, le) = ffs_from_bounds n (m / 2) (ground arith) (omega arith) in
          rw
            (
              even,
              flip_bit-next s m pos,
              digit-kept (flip_bit (s - 1) (m / 2)) m,
              even,
              half-digit (flip_bit (s - 1) (m / 2)) m,
              signals_from-first n (base + 1) (m / 2) (ground arith) (omega arith),
            )
            (ap (λ (x : ℕ). x ∷ signals_from n (base + 1) (flip_bit (s - 1) (m / 2))) (omega arith))
    ]

signals_from-zero : (n base : ℕ) → signals_from n base 0 ≡ []
unfolding signals_from
signals_from-zero zero base = refl
signals_from-zero (suc n) base = signals_from-zero n (base + 1)

length-signals_from : (n base m : ℕ) → length (signals_from n base m) ≤ n
unfolding signals_from
length-signals_from zero base m = omega arith
length-signals_from (suc n) base m = ground (arith, length-signals_from n (base + 1) (m / 2))

not-has-signals_from : (n base m a : ℕ) → a ≤ base → has a (signals_from n base m) ≡ false
unfolding signals_from
not-has-signals_from zero base m a h = refl
not-has-signals_from (suc n) base m a h =
    ground (arith, not-has-signals_from n (base + 1) (m / 2) a (omega arith))

has-signals_from : (n base m k : ℕ) → k < n → has (base + 1 + k) (signals_from n base m) ≡ bit k m
unfolding signals_from
has-signals_from zero base m k h = absurd (omega arith)
has-signals_from (suc n) base m zero h =
    ground (arith, not-has-signals_from n (base + 1) (m / 2) (base + 1 + 0) (omega arith))
has-signals_from (suc n) base m (suc k) h =
    let e : base + 1 + suc k ≡ base + 1 + 1 + k = omega arith in
    rw e (ground (arith, has-signals_from n (base + 1) (m / 2) k (omega arith)))

-- Signal numbers are 1 to 32: `s` is pending exactly when its bit is set.
pub has-signals : (m s : ℕ) → 1 ≤ s → s ≤ 32 → has s (signals m) ≡ bit (s - 1) m
unfolding signals
has-signals m s lo hi =
    let e : 0 + 1 + (s - 1) ≡ s = omega arith in
    subst (λ (a : ℕ). has a (signals_from 32 0 m) ≡ bit (s - 1) m) e
      (has-signals_from 32 0 m (s - 1) (omega arith))

pub signals-zero : signals 0 ≡ []
unfolding signals
signals-zero = signals_from-zero 32 0

pub length-signals : (m : ℕ) → length (signals m) ≤ 32
unfolding signals
length-signals m = length-signals_from 32 0 m

-- Adding a signal to the mask makes that signal pending, and changes no other.
pub signals-td_set_sig_pending :
    (m signo a : ℕ)
    → 1 ≤ signo
    → signo ≤ 32
    → 1 ≤ a
    → a ≤ 32
    → has a (signals (td_set_sig_pending m signo)) ≡ ((a == signo) || has a (signals m))
unfolding td_set_sig_pending
signals-td_set_sig_pending m signo a l h l' h' =
    rw
      (
        has-signals (bit_or m (2 ^ (signo - 1))) a l' h',
        has-signals m a l' h',
        bit_or-pow (signo - 1) m,
        bit-set_bit (a - 1) (signo - 1) m,
      )
      (ground arith)

pub td_set_sig_pending-lt :
    (m signo : ℕ) → 1 ≤ signo → signo ≤ 32 → m < 2 ^ 32 → td_set_sig_pending m signo < 2 ^ 32
unfolding td_set_sig_pending
td_set_sig_pending-lt m signo l h fits =
    rw (bit_or-pow (signo - 1) m) (set_bit-lt 32 (signo - 1) m (omega arith) fits)

-- Taking a signal out of a mask that is not empty yields the least one that is pending, and leaves
-- the others pending, in the same order.
pub td_get_sig_pending_lem :
    (m : ℕ)
    → m ≢ 0
    → m < 2 ^ 32
    → let (signo, m') = td_get_sig_pending m in
      (signals m ≡ signo ∷ signals m') × (m' < 2 ^ 32) × (1 ≤ signo) × (signo ≤ 32)
unfolding td_get_sig_pending ffs signals
td_get_sig_pending_lem m ne fits =
    let z : (m == 0) ≡ false = ground arith in
    let (pos, le) = ffs_from_bounds 32 m ne fits in
    rw (z, bit_xor-pow (ffs_from 32 m - 1) m)
      (
        signals_from-first 32 0 m ne fits
            ∙ ap (λ (x : ℕ). x ∷ signals_from 32 0 (flip_bit (ffs_from 32 m - 1) m)) (omega arith),
        flip_bit-lt 32 (ffs_from 32 m - 1) m (omega arith) fits,
        pos,
        le,
      )
