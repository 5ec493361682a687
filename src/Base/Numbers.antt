-- ===== src/Base/Numbers.antt =====
-- Numbers of JavaScript. A finite number is the exact fraction that it stands for, so a comparison
-- is exact, as in IEEE 754; arithmetic on finite numbers is taken exact too (no rounding).
use Prim.Native.Nat.{ℕ, zero, suc, ◌+◌, ◌-◌, ◌*◌, ◌/◌, ◌%◌}
use mathlib.Core.Bool.{Bool, true, false, ◌&&◌}
use dazat_mobility.Base.Tests.{ltb, leb, ◌==◌, if◌then◌else◌}

-- `negsuc n` is -(n + 1).
pub data ℤ : Type 0 where
  pos : ℕ → ℤ
  negsuc : ℕ → ℤ

abbrev pos_part : ℤ → ℕ
pos_part (pos n) = n
pos_part (negsuc n) = 0

abbrev neg_part : ℤ → ℕ
neg_part (pos n) = 0
neg_part (negsuc n) = suc n

-- a - b, as an integer.
abbrev pub sub_ℕ : ℕ → ℕ → ℤ
sub_ℕ a b = if leb b a then pos (a - b) else negsuc (b - a - 1)

-- Math.floor(z / k) for a positive k.
abbrev pub floor_div : ℤ → ℕ → ℤ
floor_div (pos n) k = pos (n / k)
floor_div (negsuc n) k = negsuc (n / k)

-- `ratio z d` is the fraction z / (d + 1).
pub data Number : Type 0 where
  nan neg_infinity pos_infinity : Number
  ratio : ℤ → ℕ → Number

abbrev integer : ℤ → Number
integer z = ratio z 0

abbrev pub natural : ℕ → Number
natural n = ratio (pos n) 0

-- a < b and a <= b; both are false where a side is NaN.
abbrev pub less : Number → Number → Bool
less neg_infinity pos_infinity = true
less neg_infinity (ratio _ _) = true
less (ratio _ _) pos_infinity = true
less (ratio a d) (ratio b e) =
    ltb (pos_part a * suc e + neg_part b * suc d) (pos_part b * suc d + neg_part a * suc e)
less _ _ = false

abbrev pub less_eq : Number → Number → Bool
less_eq neg_infinity neg_infinity = true
less_eq neg_infinity pos_infinity = true
less_eq neg_infinity (ratio _ _) = true
less_eq pos_infinity pos_infinity = true
less_eq (ratio _ _) pos_infinity = true
less_eq (ratio a d) (ratio b e) =
    leb (pos_part a * suc e + neg_part b * suc d) (pos_part b * suc d + neg_part a * suc e)
less_eq _ _ = false

-- Number.isFinite, Number.isNaN, Number.isInteger and Number.isSafeInteger.
abbrev pub is_finite : Number → Bool
is_finite (ratio _ _) = true
is_finite _ = false

abbrev is_nan : Number → Bool
is_nan nan = true
is_nan _ = false

abbrev pub is_integer : Number → Bool
is_integer (ratio z d) = (pos_part z + neg_part z) % suc d == 0
is_integer _ = false

-- Number.MAX_SAFE_INTEGER
abbrev max_safe_integer : ℕ
max_safe_integer = 9007199254740991

abbrev pub is_safe_integer : Number → Bool
is_safe_integer (ratio z d) =
    (pos_part z + neg_part z) % suc d == 0
    && leb (pos_part z + neg_part z) (max_safe_integer * suc d)
is_safe_integer _ = false

abbrev negate_ℤ : ℤ → ℤ
negate_ℤ (pos zero) = pos zero
negate_ℤ (pos (suc n)) = negsuc n
negate_ℤ (negsuc n) = pos (suc n)

abbrev pub negate : Number → Number
negate nan = nan
negate neg_infinity = pos_infinity
negate pos_infinity = neg_infinity
negate (ratio z d) = ratio (negate_ℤ z) d

-- x / 2
abbrev pub half : Number → Number
half (ratio z d) = ratio z (suc (2 * d))
half x = x

-- x * k for a positive k.
abbrev pub scale : Number → ℕ → Number
scale (ratio (pos n) d) k = ratio (pos (n * k)) d
scale (ratio (negsuc n) d) k = ratio (negsuc (suc n * k - 1)) d
scale x k = x

-- BigInt(x) of a number that is a safe integer above zero.
abbrev pub to_natural : Number → ℕ
to_natural (ratio (pos n) d) = n / suc d
to_natural _ = 0
