-- ===== src/Base/Lists.antt =====
-- Lists measured by native numbers, predicates on lists, and the collection of blockers.
use Prim.Native.Nat.{ℕ, suc, ◌+◌}
use mathlib.Core.Path.{◌≡◌, refl, ap}
use mathlib.Core.Logic.{◌↔◌}
use mathlib.Core.Bool.{Bool, true, false, not, ◌||◌, ◌&&◌}
use mathlib.Core.List.{List, [], ◌∷◌, ◌++◌, map}
use native.Mathlib.Omega.{arith}
use dazat_mobility.Base.Tests.{same, same-eq, includes}

module _ {ℓ} {A : Type ℓ} where
  abbrev pub length : List A → ℕ
  length [] = 0
  length (x ∷ xs) = suc (length xs)

  abbrev pub is_empty : List A → Bool
  is_empty [] = true
  is_empty (x ∷ xs) = false

  -- `list.some(p)` and `list.every(p)`.
  abbrev pub some_of : (A → Bool) → List A → Bool
  some_of p [] = false
  some_of p (x ∷ xs) = p x || some_of p xs

  abbrev pub every : (A → Bool) → List A → Bool
  every p [] = true
  every p (x ∷ xs) = p x && every p xs

  -- `list.filter(p)`.
  abbrev pub keep : (A → Bool) → List A → List A
  keep p [] = []
  keep p (x ∷ xs) = let rest = keep p xs in elim (p x) [ true ↦ x ∷ rest | false ↦ rest ]

  -- `list[0] ?? d`.
  abbrev pub head_or : A → List A → A
  head_or d [] = d
  head_or d (x ∷ xs) = x

abbrev pub All {ℓ κ} : {A : Type ℓ} → (A → Type κ) → List A → Type κ
All P [] = Unit
All P (x ∷ xs) = P x × All P xs

-- A row of statements `if (test) blockers.push(blocker)`.
abbrev pub collect {ℓ} : {A : Type ℓ} → List (Bool × A) → List A
collect [] = []
collect ((t, b) ∷ rest) = let more = collect rest in elim t [ true ↦ b ∷ more | false ↦ more ]

-- Nothing is collected exactly when every test is false.
pub collect-empty_iff {ℓ} :
    {A : Type ℓ} (rows : List (Bool × A))
    → (is_empty (collect rows) ≡ true) ↔ All (λ r. r.0 ≡ false) rows
collect-empty_iff [] = (λ _. tt, λ _. refl)
collect-empty_iff ((true, b) ∷ rest) = (λ e. cc, λ h. cc)
collect-empty_iff ((false, b) ∷ rest) =
    let ih = collect-empty_iff rest in (λ e. (refl, ih.0 e), λ h. ih.1 h.1)

-- What is collected is what some row with a true test says.
includes-collect {ℓ} :
    {A : Type ℓ} (dec : Discrete A) (rows : List (Bool × A)) (b : A)
    → includes dec (collect rows) b ≡ some_of (λ r. r.0 && same dec r.1 b) rows
includes-collect dec [] b = refl
includes-collect dec ((true, c) ∷ rest) b =
    ap (λ t. same dec c b || t) (includes-collect dec rest b)
includes-collect dec ((false, c) ∷ rest) b = includes-collect dec rest b

pub length-append {ℓ} : {A : Type ℓ} (xs ys : List A) → length (xs ++ ys) ≡ length xs + length ys
length-append [] ys = omega arith
length-append (x ∷ xs) ys = omega (arith, length-append xs ys)

pub length-map {ℓ κ} :
    {A : Type ℓ} {B : Type κ} (f : A → B) (xs : List A) → length (map f xs) ≡ length xs
length-map f [] = refl
length-map f (x ∷ xs) = ap suc (length-map f xs)

module _ {ℓ} {A : Type ℓ} where
  pub every-imp :
      (p q : A → Bool) (xs : List A)
      → ((a : A) → p a ≡ true → q a ≡ true)
      → every p xs ≡ true
      → every q xs ≡ true
  every-imp p q [] h e = refl
  every-imp p q (x ∷ xs) h e = ground (arith, h x, every-imp p q xs h)

  pub every-append :
      (p : A → Bool) (xs ys : List A)
      → every p xs ≡ true
      → every p ys ≡ true
      → every p (xs ++ ys) ≡ true
  every-append p [] ys h k = k
  every-append p (x ∷ xs) ys h k = ground (arith, every-append p xs ys)

  pub every-keep : (p : A → Bool) (xs : List A) → every p (keep p xs) ≡ true
  every-keep p [] = refl
  every-keep p (x ∷ xs) = ground (arith, every-keep p xs)

  pub keep_of_every : (p : A → Bool) (xs : List A) → every p xs ≡ true → keep p xs ≡ xs
  keep_of_every p [] h = refl
  keep_of_every p (x ∷ xs) h = ground (arith, keep_of_every p xs)

pub keep-keep {ℓ} :
    {A : Type ℓ} (p q : A → Bool) (xs : List A) → keep p (keep q xs) ≡ keep (λ x. q x && p x) xs
keep-keep p q [] = refl
keep-keep p q (x ∷ xs) = ground (arith, keep-keep p q xs)

pub includes-map-keep {ℓ κ} :
    {A : Type ℓ} {B : Type κ} (dec : Discrete B) (f : A → B) (p : A → Bool) (xs : List A) (b : B)
    → includes dec (map f (keep p xs)) b ≡ some_of (λ x. p x && same dec (f x) b) xs
includes-map-keep dec f p [] b = refl
includes-map-keep dec f p (x ∷ xs) b = ground (arith, includes-map-keep dec f p xs b)

-- The elements of a list that are not among those seen, once each, in the order of their first place.
abbrev pub distinct {ℓ} : {A : Type ℓ} → Discrete A → List A → List A → List A
distinct dec seen [] = []
distinct dec seen (x ∷ xs) =
    let rest = distinct dec seen xs in
    let more = x ∷ distinct dec (x ∷ seen) xs in
    elim (includes dec seen x) [ true ↦ rest | false ↦ more ]

includes-at {ℓ} :
    {A : Type ℓ} (dec : Discrete A) (xs : List A) (a b : A)
    → same dec a b ≡ true
    → includes dec xs a ≡ includes dec xs b
includes-at dec xs a b h = ap (includes dec xs) (same-eq dec a b h)

pub includes-distinct {ℓ} :
    {A : Type ℓ} (dec : Discrete A) (seen xs : List A) (b : A)
    → includes dec (distinct dec seen xs) b ≡ (includes dec xs b && not (includes dec seen b))
includes-distinct dec seen [] b = refl
includes-distinct dec seen (x ∷ xs) b = ground (
  arith,
  includes-distinct dec seen xs b,
  includes-distinct dec (x ∷ seen) xs b,
  includes-at dec seen x b,
)
