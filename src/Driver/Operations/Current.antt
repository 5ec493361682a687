-- ===== src/Driver/Operations/Current.antt =====
-- packages/domain/src/driver-operations.ts: the services with a current permission.
use dazat_mobility.Base.{
  true, false, ◌||◌, not, List, [], ◌∷◌, ◌++◌, map, ◌≡◌, ◌↔◌, refl, sym, ap, ◌∙◌, inl, inr, arith,
  Bool-cases, is_empty, keep,
}
use dazat_mobility.Base.Texts.{Text, text_eq, member, distinct_from, insert_text, sort_texts, trim}
use dazat_mobility.Driver.Operations.{current_services}
use dazat_mobility.Driver.Operations.Kept.{IsOneOf, keep_iff}

text_eq-eq : (s t : Text) → text_eq s t ≡ true → s ≡ t
unfolding text_eq
text_eq-eq [] [] h = refl
text_eq-eq [] (d ∷ t) h = absurd (ground arith)
text_eq-eq (c ∷ s) [] h = absurd (ground arith)
text_eq-eq (c ∷ s) (d ∷ t) h =
    let same : s ≡ t = text_eq-eq s t (ground arith) in
    let first : c ≡ d = ground arith in ap (λ x. x ∷ s) first ∙ ap (λ x. d ∷ x) same

text_eq_refl : (s : Text) → text_eq s s ≡ true
unfolding text_eq
text_eq_refl [] = refl
text_eq_refl (c ∷ s) = ground (arith, text_eq_refl s)

member-IsOneOf : (c : Text) (texts : List Text) → member c texts ≡ true → IsOneOf c texts
unfolding member
member-IsOneOf c [] h = absurd (ground arith)
member-IsOneOf c (t ∷ texts) h = elim (Bool-cases (text_eq t c)) [
  | inl same ↦ ([], texts, ap (λ x. x ∷ texts) (text_eq-eq t c same))
  | inr other ↦
      let (first, rest, is) = member-IsOneOf c texts (ground arith) in
      (t ∷ first, rest, ap (λ l. t ∷ l) is)
]

member-append : (c : Text) (first rest : List Text) → member c (first ++ c ∷ rest) ≡ true
unfolding member
member-append c [] rest = rw (text_eq_refl c) refl
member-append c (t ∷ first) rest = ground (arith, member-append c first rest)

member_iff : (c : Text) (texts : List Text) → (member c texts ≡ true) ↔ IsOneOf c texts
member_iff c texts =
    (member-IsOneOf c texts, λ (first, rest, is). rw is (member-append c first rest))

member-insert_text :
    (c t : Text) (texts : List Text)
    → member c (insert_text t texts) ≡ (text_eq t c || member c texts)
unfolding member
member-insert_text c t [] = refl
member-insert_text c t (s ∷ texts) = ground (arith, member-insert_text c t texts)

member-sort_texts : (c : Text) (texts : List Text) → member c (sort_texts texts) ≡ member c texts
unfolding sort_texts member
member-sort_texts c [] = refl
member-sort_texts c (t ∷ texts) =
    member-insert_text c t (sort_texts texts)
    ∙ ap (λ b. text_eq t c || b) (member-sort_texts c texts)

member-distinct_from :
    (c : Text) (seen texts : List Text)
    → (member c seen || member c (distinct_from seen texts)) ≡ (member c seen || member c texts)
unfolding distinct_from member
member-distinct_from c seen [] = refl
member-distinct_from c seen (t ∷ texts) =
    let same = text_eq-eq t c in
    let rest = member-distinct_from c seen texts in
    let more = member-distinct_from c (t ∷ seen) texts in
    elim (Bool-cases (text_eq t c)) [
      | inr other ↦ ground arith
      | inl is ↦
          let seen_alike : member t seen ≡ member c seen = ap (λ x. member x seen) (same is) in
          ground arith
    ]

map-IsOneOf :
    (f : Text → Text) (c : Text) (texts : List Text)
    → IsOneOf c (map f texts)
    → (raw : Text) × IsOneOf raw texts × (f raw ≡ c)
map-IsOneOf f c [] ([], rest, is) = absurd (ground arith)
map-IsOneOf f c [] (x ∷ first, rest, is) = absurd (ground arith)
map-IsOneOf f c (t ∷ texts) ([], rest, is) = (t, ([], texts, refl), ground arith)
map-IsOneOf f c (t ∷ texts) (x ∷ first, rest, is) =
    let (raw, (before, after, among), same) = map-IsOneOf f c texts (first, rest, ground arith) in
    (raw, (t ∷ before, after, ap (λ l. t ∷ l) among), same)

IsOneOf-map :
    (f : Text → Text) (raw : Text) (first rest : List Text)
    → IsOneOf (f raw) (map f (first ++ raw ∷ rest))
IsOneOf-map f raw [] rest = ([], map f rest, refl)
IsOneOf-map f raw (t ∷ first) rest =
    let (before, after, is) = IsOneOf-map f raw first rest in
    (f t ∷ before, after, ap (λ l. f t ∷ l) is)

kept_iff :
    (f : Text → Text) (codes : List Text) (c : Text)
    → IsOneOf c (keep (λ t. not (is_empty t)) (map f codes))
      ↔ ((raw : Text) × IsOneOf raw codes × (f raw ≡ c) × (is_empty c ≡ false))
kept_iff f codes c =
    let (to, from) = keep_iff (λ t. not (is_empty t)) (map f codes) c in
    (
      λ one.
          let (among, full) = to one in
          let (raw, is_raw, same) = map-IsOneOf f c codes among in
          (raw, is_raw, same, ground arith),
      λ (raw, (first, rest, is), same, full).
          from (rw (← same, is) (IsOneOf-map f raw first rest), ground arith),
    )

same_members :
    (c : Text) (texts : List Text) → member c (sort_texts (distinct_from [] texts)) ≡ member c texts
unfolding member
same_members c texts =
    member-sort_texts c (distinct_from [] texts) ∙ member-distinct_from c [] texts

-- The services with a current permission are the trimmed codes in capitals that are not empty.
pub current_iff :
    (upper : Text → Text) (codes : List Text) (c : Text)
    → IsOneOf c (current_services upper codes)
      ↔ ((raw : Text) × IsOneOf raw codes × (upper (trim raw) ≡ c) × (is_empty c ≡ false))
unfolding current_services
current_iff upper codes c =
    let kept = keep (λ t. not (is_empty t)) (map (λ t. upper (trim t)) codes) in
    let (to, from) = kept_iff (λ t. upper (trim t)) codes c in
    let sorted = member_iff c (sort_texts (distinct_from [] kept)) in
    let plain = member_iff c kept in
    (
      λ one. to (plain.0 (sym (same_members c kept) ∙ sorted.1 one)),
      λ raw. sorted.0 (same_members c kept ∙ plain.1 (from raw)),
    )
