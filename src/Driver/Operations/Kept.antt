-- ===== src/Driver/Operations/Kept.antt =====
-- The texts of a list and of a filtered list.
use dazat_mobility.Base.{
  Bool, true, List, [], ◌∷◌, ◌++◌, ◌≡◌, ◌↔◌, inl, inr, refl, ap, arith, Bool-cases, keep,
}
use dazat_mobility.Base.Texts.{Text}

-- `code` is one of the texts.
abbrev pub IsOneOf : Text → List Text → Type 0
IsOneOf code texts = (first rest : List Text) × (texts ≡ first ++ code ∷ rest)

keep-split :
    (p : Text → Bool) (first rest : List Text) (t : Text)
    → p t ≡ true
    → IsOneOf t (keep p (first ++ t ∷ rest))
keep-split p [] rest t h = ([], keep p rest, rw h refl)
keep-split p (x ∷ first) rest t h =
    let (before, after, is) = keep-split p first rest t h in
    elim (Bool-cases (p x)) [
      | inl kept ↦ (x ∷ before, after, rw (kept, is) refl)
      | inr gone ↦ (before, after, rw (gone, is) refl)
    ]

one-cons : (t x : Text) (texts : List Text) → IsOneOf t texts → IsOneOf t (x ∷ texts)
one-cons t x texts (first, rest, is) = (x ∷ first, rest, ap (λ l. x ∷ l) is)

split-keep :
    (p : Text → Bool) (texts first rest : List Text) (t : Text)
    → keep p texts ≡ first ++ t ∷ rest
    → IsOneOf t texts × (p t ≡ true)
split-keep p [] [] rest t is = absurd (ground arith)
split-keep p [] (y ∷ first) rest t is = absurd (ground arith)
split-keep p (x ∷ texts) [] rest t is = elim (Bool-cases (p x)) [
  | inr gone ↦
      let tail : keep p texts ≡ t ∷ rest = ground arith in
      let (one, passes) = split-keep p texts [] rest t tail in (one-cons t x texts one, passes)
  | inl kept ↦
      let eq : x ≡ t = ground arith in (([], texts, ap (λ y. y ∷ texts) eq), rw (← eq) kept)
]
split-keep p (x ∷ texts) (y ∷ first) rest t is = elim (Bool-cases (p x)) [
  | inr gone ↦
      let tail : keep p texts ≡ y ∷ (first ++ t ∷ rest) = ground arith in
      let (one, passes) = split-keep p texts (y ∷ first) rest t tail in
      (one-cons t x texts one, passes)
  | inl kept ↦
      let tail : keep p texts ≡ first ++ t ∷ rest = ground arith in
      let (one, passes) = split-keep p texts first rest t tail in (one-cons t x texts one, passes)
]

-- The texts of a filtered list are those of the list that pass.
pub keep_iff :
    (p : Text → Bool) (texts : List Text) (t : Text)
    → IsOneOf t (keep p texts) ↔ (IsOneOf t texts × (p t ≡ true))
keep_iff p texts t = (
  λ (first, rest, is). split-keep p texts first rest t is,
  λ ((first, rest, is), passes). rw is (keep-split p first rest t passes),
)
