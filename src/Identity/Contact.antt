-- ===== src/Identity/Contact.antt =====
-- packages/domain/src/identity.ts and packages/domain/src/authentication.ts: contacts and codes as
-- texts. `lower` stands for `toLowerCase`.
use dazat_mobility.Base.{
  ℕ, zero, suc, max, ◌-◌, Bool, false, not, ◌&&◌, ◌||◌, Option, none, some, [], ◌∷◌, ◌++◌, keep,
  every, is_empty, length, leb, ◌==◌, if◌then◌else◌,
}
use dazat_mobility.Base.Texts.{Text, trim, is_space, units}
use dazat_mobility.Base.Results.{Result, ok, err}

pub data ContactPointType : Type 0 where
  email mobile landline : ContactPointType

pub data ContactError : Type 0 where
  invalid_email invalid_phone invalid_code : ContactError

abbrev is_digit : ℕ → Bool
is_digit c = leb b'0' c && leb c b'9'

-- /^\d{6}$/
unfoldable normalise_verification_code : Text → Result ContactError Text
unfolding trim
normalise_verification_code raw =
    let code = trim raw in
    if length code == 6 && every is_digit code then ok code else err invalid_code

-- Whether some character other than the last of a non-empty rest is a dot: the part `[^\s@]+\.[^\s@]+`
-- after the first character.
abbrev dot_before_last : Text → Bool
dot_before_last [] = false
dot_before_last (c ∷ rest) = (c == b'.' && not (is_empty rest)) || dot_before_last rest

abbrev has_inner_dot : Text → Bool
has_inner_dot [] = false
has_inner_dot (c ∷ rest) = dot_before_last rest

abbrev pub plain : ℕ → Bool
plain c = not (is_space c || c == b'@')

-- The text before and after the first `@`.
unfoldable pub before_at : Text → Text
before_at [] = []
before_at (c ∷ rest) = let more = before_at rest in if c == b'@' then [] else c ∷ more

unfoldable pub after_at : Text → Option Text
after_at [] = none
after_at (c ∷ rest) = let more = after_at rest in if c == b'@' then some rest else more

abbrev pub is_domain : Option Text → Bool
is_domain none = false
is_domain (some d) = every plain d && has_inner_dot d

-- /^[^\s@]+@[^\s@]+\.[^\s@]+$/
unfoldable pub is_email : Text → Bool
unfolding before_at after_at
is_email s = not (is_empty (before_at s)) && every plain (before_at s) && is_domain (after_at s)

-- /^\+[1-9]\d{7,14}$/
unfoldable pub is_e164 : Text → Bool
is_e164 (p ∷ d ∷ rest) =
    p == b'+'
    && (leb b'1' d && leb d b'9')
    && (leb 7 (length rest) && leb (length rest) 14)
    && every is_digit rest
is_e164 _ = false

-- value.replace(/[\s()-]/g, '')
unfoldable pub compact_phone : Text → Text
compact_phone = keep (λ c. not (is_space c || c == b'(' || c == b')' || c == b'-'))

unfoldable pub normalise_contact :
    (Text → Text) → ContactPointType → Text → Result ContactError Text
normalise_contact lower email raw =
    let normalised = lower (trim raw) in
    if is_email normalised then ok normalised else err invalid_email
normalise_contact lower _ raw =
    let compact = compact_phone (trim raw) in
    if is_e164 compact then ok compact else err invalid_phone

-- A text of `n` asterisks.
abbrev stars : ℕ → Text
stars zero = []
stars (suc n) = b'*' ∷ stars n

abbrev take : ℕ → Text → Text
take zero s = []
take (suc n) [] = []
take (suc n) (c ∷ s) = c ∷ take n s

abbrev drop : ℕ → Text → Text
drop zero s = s
drop (suc n) [] = []
drop (suc n) (c ∷ s) = drop n s

-- `local.slice(0, Math.min(2, local.length))` and `Math.max(2, local.length - visible.length)`.
abbrev mask_local : Text → Text
mask_local s = take 2 s ++ stars (max 2 (length s - length (take 2 s)))

abbrev mask_parts : Text → Option Text → Text
mask_parts s none = units "***"
mask_parts [] (some domain) = units "***"
mask_parts (c ∷ s) (some domain) = mask_local (c ∷ s) ++ b'@' ∷ domain

unfoldable mask_contact : ContactPointType → Text → Text
unfolding before_at after_at
mask_contact email s = mask_parts (before_at s) (after_at s)
mask_contact _ s = 0x2022 ∷ 0x2022 ∷ 0x2022 ∷ 0x2022 ∷ drop (length s - 4) s
