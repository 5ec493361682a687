-- ===== src/Base/Tests.antt =====
-- Boolean tests on the native numbers, the conditional and case splits.
use Prim.Native.Nat.{ℕ, compare, Ordering}
use mathlib.Core.Path.{◌≡◌, refl}
use mathlib.Core.Logic.{◌⊎◌, ◌≢◌, inl, inr}
use mathlib.Core.Bool.{Bool, true, false, ◌||◌}
use mathlib.Core.List.{List, [], ◌∷◌}
use mathlib.Core.Option.{Option, none, some}
use native.Mathlib.Omega.{arith}

abbrev pub ltb : ℕ → ℕ → Bool
ltb a b = elim (compare a b) [ Ordering.lt ↦ true | _ ↦ false ]

abbrev pub leb : ℕ → ℕ → Bool
leb a b = elim (compare a b) [ Ordering.gt ↦ false | _ ↦ true ]

infix 50 ◌==◌
abbrev pub ◌==◌ : ℕ → ℕ → Bool
a == b = elim (compare a b) [ Ordering.eq ↦ true | _ ↦ false ]

infix 1 if◌then◌else◌
abbrev pub if◌then◌else◌ {ℓ} : {A : Type ℓ} → Bool → A → A → A
if true then x else y = x
if false then x else y = y

-- A split on a computed value that keeps the equation.
pub Bool-cases : (b : Bool) → (b ≡ true) ⊎ (b ≡ false)
Bool-cases true = inl refl
Bool-cases false = inr refl

pub Option-cases {ℓ} : {A : Type ℓ} (o : Option A) → (o ≡ none) ⊎ ((a : A) × (o ≡ some a))
Option-cases none = inl refl
Option-cases (some a) = inr (a, refl)

-- The equality of a decidable type as a Boolean, `a === b`.
abbrev pub same {ℓ} : {A : Type ℓ} → Discrete A → A → A → Bool
same dec a b = elim (dec a b) [ yes _ ↦ true | no _ ↦ false ]

-- `list.includes(a)`.
abbrev pub includes {ℓ} : {A : Type ℓ} → Discrete A → List A → A → Bool
includes dec [] a = false
includes dec (x ∷ xs) a = same dec x a || includes dec xs a

module _ {ℓ} {A : Type ℓ} (dec : Discrete A) where
  pub same-eq : (a b : A) → same dec a b ≡ true → a ≡ b
  same-eq a b h = ground arith

  pub same_refl : (a : A) → same dec a a ≡ true
  same_refl a = ground arith

  pub same_ne : (a b : A) → a ≢ b → same dec a b ≡ false
  same_ne a b h = ground arith

  pub includes-one : (x q : A) → includes dec (x ∷ []) q ≡ true → x ≡ q
  includes-one x q h = ground arith

  pub includes-two : (x y q : A) → includes dec (x ∷ y ∷ []) q ≡ true → (x ≡ q) ⊎ (y ≡ q)
  includes-two x y q h = ground arith
