-- ===== src/Base/Tests.antt =====
-- Boolean tests on the native numbers, the conditional, and case splits that keep the equation.
use Prim.Native.Nat.{ℕ, compare, Ordering}
use mathlib.Core.Path.{◌≡◌, refl, sym, ap, ◌∙◌}
use mathlib.Core.Logic.{◌≢◌, ◌↔◌, ◌⊎◌, inl, inr}
use mathlib.Core.Bool.{Bool, true, false}
use mathlib.Core.Option.{Option, none, some}
use native.Mathlib.Omega.{arith}

abbrev pub ltb : ℕ → ℕ → Bool
ltb a b = elim (compare a b) [ Ordering.lt ↦ true | _ ↦ false ]

infix 50 ◌==◌
abbrev pub ◌==◌ : ℕ → ℕ → Bool
a == b = elim (compare a b) [ Ordering.eq ↦ true | _ ↦ false ]

infix 1 if◌then◌else◌
abbrev pub if◌then◌else◌ {ℓ} : {A : Type ℓ} → Bool → A → A → A
if true then x else y = x
if false then x else y = y

pub ==_iff : (a b : ℕ) → ((a == b) ≡ true) ↔ (a ≡ b)
==_iff a b = ground arith

pub Bool-cases : (b : Bool) → (b ≡ true) ⊎ (b ≡ false)
Bool-cases true = inl refl
Bool-cases false = inr refl

-- A table indexed by addresses or thread numbers, with one entry replaced.
abbrev pub update {ℓ} : {A : Type ℓ} → (ℕ → A) → ℕ → A → ℕ → A
update f i a j = if j == i then a else f j

abbrev pub is_some {ℓ} : {A : Type ℓ} → Option A → Bool
is_some none = false
is_some (some _) = true

pub is_some→some {ℓ} : {A : Type ℓ} (o : Option A) → is_some o ≡ true → (a : A) × (o ≡ some a)
is_some→some none h = cc
is_some→some (some a) h = (a, refl)

pub ==-refl : (a : ℕ) → (a == a) ≡ true
==-refl a = ground arith

pub ==_sym : (a b : ℕ) → (a == b) ≡ (b == a)
==_sym a b = ground arith

-- A table read where it was written, and elsewhere.
pub update-cases {ℓ} :
    {A : Type ℓ} (f : ℕ → A) (t a : ℕ) (p : A)
    → ((a ≡ t) × (update f t p a ≡ p)) ⊎ ((a ≢ t) × (update f t p a ≡ f a))
update-cases f t a p = elim (Bool-cases (a == t)) [
  | inl e ↦ inl (ground arith, simp e refl)
  | inr e ↦ inr (ground arith, simp e refl)
]

pub update_other {ℓ} : {A : Type ℓ} (f : ℕ → A) (t a : ℕ) (p : A) → a ≢ t → update f t p a ≡ f a
update_other f t a p n = elim (update-cases f t a p) [
  | inl (e, e') ↦ absurd (n e)
  | inr (e, e') ↦ e'
]

-- What is the same of the new entry and of the old one is the same of the whole table.
pub update-image {ℓ κ} :
    {A : Type ℓ} {B : Type κ} (h : A → B) (f : ℕ → A) (t : ℕ) (p : A)
    → h p ≡ h (f t)
    → (a : ℕ) → h (update f t p a) ≡ h (f a)
update-image h f t p eq a = elim (update-cases f t a p) [
  | inl (e, e') ↦ ap h e' ∙ eq ∙ ap (λ (x : ℕ). h (f x)) (sym e)
  | inr (e, e') ↦ ap h e'
]
