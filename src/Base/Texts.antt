-- ===== src/Base/Texts.antt =====
-- Texts of JavaScript as lists of UTF-16 code units, with the methods that the program calls.
use Prim.Native.Nat.{ℕ}
use Prim.Native.String.{String}
use Prim.Native.Char.{code}
use mathlib.Core.Bool.{Bool, true, false, not, ◌&&◌, ◌||◌}
use mathlib.Core.Path.{◌≡◌, refl}
use native.Mathlib.Omega.{arith}
use mathlib.Core.Option.{Option, none, some}
use mathlib.Core.List.{List, [], ◌∷◌, ◌++◌, reverse, reverse-cons, reverse-reverse}
use dazat_mobility.Base.Tests.{leb, ltb, ◌==◌, if◌then◌else◌}
use dazat_mobility.Base.Lists.{is_empty, length, every}

abbrev pub Text : Type 0
Text = List ℕ

-- The code units of an ASCII literal.
abbrev pub units : String → Text
units String.[] = []
units (String.◌∷◌ c s) = code c ∷ units s

-- The characters that `trim` removes and `\s` matches: WhiteSpace and LineTerminator of ECMAScript.
abbrev pub is_space : ℕ → Bool
is_space c =
    (leb 9 c && leb c 13)
    || c == 32
    || c == 160
    || c == 0x1680
    || (leb 0x2000 c && leb c 0x200a)
    || c == 0x2028
    || c == 0x2029
    || c == 0x202f
    || c == 0x205f
    || c == 0x3000
    || c == 0xfeff

abbrev trim_start : Text → Text
trim_start [] = []
trim_start (c ∷ s) = let rest = trim_start s in elim (is_space c) [ true ↦ rest | false ↦ c ∷ s ]

-- s.trim()
unfoldable pub trim : Text → Text
trim s = reverse (trim_start (reverse (trim_start s)))

-- Whether s.trim() is not the empty text, as a condition.
unfoldable pub has_content : Text → Bool
unfolding trim
has_content s = not (is_empty (trim s))

-- `Boolean(s?.trim())` for a text that may be null.
unfoldable pub has_content_opt : Option Text → Bool
unfolding has_content
has_content_opt none = false
has_content_opt (some s) = has_content s

-- a === b
unfoldable pub text_eq : Text → Text → Bool
text_eq [] [] = true
text_eq (a ∷ s) (b ∷ t) = a == b && text_eq s t
text_eq _ _ = false

abbrev pub is_capital : ℕ → Bool
is_capital c = leb b'A' c && leb c b'Z'

-- /^[A-Z]{3}$/
unfoldable pub is_currency_code : Text → Bool
is_currency_code s = length s == 3 && every is_capital s

-- s.startsWith(p) and s.includes(p)
abbrev starts_with : Text → Text → Bool
starts_with [] s = true
starts_with (c ∷ p) [] = false
starts_with (c ∷ p) (d ∷ s) = c == d && starts_with p s

unfoldable pub contains_text : Text → Text → Bool
contains_text p [] = is_empty p
contains_text p (c ∷ s) = starts_with p (c ∷ s) || contains_text p s

unfoldable pub member : Text → List Text → Bool
unfolding text_eq
member t [] = false
member t (s ∷ ts) = text_eq s t || member t ts

-- The elements of a list once each, in the order of their first place, as `[...new Set(list)]`.
unfoldable pub distinct_from : List Text → List Text → List Text
unfolding member
distinct_from seen [] = []
distinct_from seen (t ∷ ts) =
    let rest = distinct_from seen ts in
    let more = t ∷ distinct_from (t ∷ seen) ts in if member t seen then rest else more

-- The order of texts by their code units, as `list.sort()` uses it.
abbrev text_le : Text → Text → Bool
text_le [] t = true
text_le (c ∷ s) [] = false
text_le (c ∷ s) (d ∷ t) = ltb c d || (c == d && text_le s t)

abbrev pub insert_text : Text → List Text → List Text
insert_text t [] = t ∷ []
insert_text t (s ∷ ts) = let rest = insert_text t ts in if text_le t s then t ∷ s ∷ ts else s ∷ rest

unfoldable pub sort_texts : List Text → List Text
sort_texts [] = []
sort_texts (t ∷ ts) = insert_text t (sort_texts ts)

abbrev NoSpace : Text → Type 0
NoSpace [] = Unit
NoSpace (c ∷ s) = (is_space c ≡ false) × NoSpace s

trim_start-NoSpace : (s : Text) → NoSpace s → trim_start s ≡ s
trim_start-NoSpace [] h = refl
trim_start-NoSpace (c ∷ s) h = rw (h.0, trim_start) refl

NoSpace-append : (s t : Text) → NoSpace s → NoSpace t → NoSpace (s ++ t)
NoSpace-append [] t h k = k
NoSpace-append (c ∷ s) t h k = (h.0, NoSpace-append s t h.1 k)

NoSpace-reverse : (s : Text) → NoSpace s → NoSpace (reverse s)
NoSpace-reverse [] h = tt
NoSpace-reverse (c ∷ s) h =
    rw reverse-cons (NoSpace-append (reverse s) (c ∷ []) (NoSpace-reverse s h.1) (h.0, tt))

NoSpace-every : (s : Text) → every (λ c. not (is_space c)) s ≡ true → NoSpace s
NoSpace-every [] h = tt
NoSpace-every (c ∷ s) h = ground (arith, NoSpace-every s)

-- A text with no space is not changed by `trim`.
pub trim_of_no_space : (s : Text) → every (λ c. not (is_space c)) s ≡ true → trim s ≡ s
unfolding trim
trim_of_no_space s h =
    let clean = NoSpace-every s h in
    rw (trim_start-NoSpace s clean, trim_start-NoSpace (reverse s) (NoSpace-reverse s clean))
      (reverse-reverse s)
