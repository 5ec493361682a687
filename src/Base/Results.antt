-- ===== src/Base/Results.antt =====
-- A computation that returns a value or throws. `E` is the kind of error that was thrown.
use mathlib.Core.Path.{◌≡◌, refl}
use mathlib.Core.Logic.{◌⊎◌, inl, inr}
use native.Mathlib.Omega.{arith}
use mathlib.Core.Bool.{Bool, true, false, not}

-- A thrown error, or a returned value.
pub data Result {ℓ} (E A : Type ℓ) : Type ℓ where
  err : E → Result E A
  ok : A → Result E A

-- What follows is run only on a returned value.
infixl 5 ◌>>=◌
abbrev pub ◌>>=◌ {ℓ} : {E A B : Type ℓ} → Result E A → (A → Result E B) → Result E B
err thrown >>= following = err thrown
ok value >>= following = following value

-- `if (!test) throw e`
abbrev pub require : {E : Type 0} → Bool → E → Result E (Unit {0})
require false thrown = err thrown
require true thrown = ok tt

infixl 5 ◌>>◌
abbrev pub ◌>>◌ {ℓ} : {E A B : Type ℓ} → Result E A → Result E B → Result E B
first >> second = first >>= (λ _. second)

-- A sequence that returned: both of its parts returned.
pub >>=-eq-ok {ℓ} :
    {E A B : Type ℓ} (first : Result E A) (following : A → Result E B) {value : B}
    → (first >>= following) ≡ ok value
    → (between : A) × (first ≡ ok between) × (following between ≡ ok value)
>>=-eq-ok (err thrown) following returned = cc
>>=-eq-ok (ok between) following returned = (between, refl, returned)

-- What follows a check that returned.
pub after_check :
    {E A U : Type 0} (a : Result E U) (rest : Result E A) (x : A) → (a >> rest) ≡ ok x → rest ≡ ok x
after_check (ok _) rest x h = h
after_check (err e) rest x h = cc

-- What follows three checks that returned.
pub after_checks :
    {E A U : Type 0} (a b c : Result E U) (rest : Result E A) (x : A)
    → (a >> (b >> (c >> rest))) ≡ ok x
    → rest ≡ ok x
after_checks (ok _) (ok _) (ok _) rest x h = h
after_checks (ok _) (ok _) (err e) rest x h = cc
after_checks (ok _) (err e) c rest x h = cc
after_checks (err e) b c rest x h = cc

pub Result-cases {ℓ} :
    {E A : Type ℓ} (r : Result E A) → ((a : A) × (r ≡ ok a)) ⊎ ((e : E) × (r ≡ err e))
Result-cases (ok a) = inl (a, refl)
Result-cases (err e) = inr (e, refl)

-- Four guards in a row before a value.
pub four_guards :
    {E A : Type 0} (a b c d : Bool) (e f g h : E) (x : A)
    → ((a ≡ true) × (b ≡ true) × (c ≡ false) × (d ≡ false)
        → (require a e >> (require b f >> (require (not c) g >> (require (not d) h >> ok x))))
          ≡ ok x)
      × ((y : A)
          → (require a e >> (require b f >> (require (not c) g >> (require (not d) h >> ok x))))
            ≡ ok y
          → ((a ≡ true) × (b ≡ true) × (c ≡ false) × (d ≡ false)) × (x ≡ y))
four_guards true true false false e f g h x = ground arith
four_guards true true false true e f g h x = ground arith
four_guards true true true d e f g h x = ground arith
four_guards true false c d e f g h x = ground arith
four_guards false b c d e f g h x = ground arith
