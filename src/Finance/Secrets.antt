-- ===== src/Finance/Secrets.antt =====
-- packages/domain/src/finance.ts: no raw card secret may stand anywhere in a payload.
-- `lower` stands for `toLowerCase`.
use dazat_mobility.Base.{
  ℕ, ◌+◌, Bool, true, false, not, ◌||◌, List, [], ◌∷◌, ◌≡◌, refl, ◌↔◌, ◌⊎◌, inl, inr, keep, some_of,
  Bool-cases, ◌==◌,
}
use dazat_mobility.Base.Texts.{Text, units, text_eq}
use dazat_mobility.Base.Results.{Result, ok, err, ◌>>◌, require}

-- A payload; the values that are neither arrays nor objects are not told apart.
mutual
  pub data Payload : Type 0 where
    scalar : Payload
    array : Items → Payload
    object : Fields → Payload

  pub data Items : Type 0 where
    none_left : Items
    item : Payload → Items → Items

  pub data Fields : Type 0 where
    end : Fields
    field : Text → Payload → Fields → Fields

abbrev forbidden_payment_secret_keys : List Text
forbidden_payment_secret_keys =
    units "pan"
    ∷ units "cardnumber"
    ∷ units "fullcardnumber"
    ∷ units "cvv"
    ∷ units "cvc"
    ∷ units "securitycode"
    ∷ units "trackdata"
    ∷ units "pin"
    ∷ units "pinblock"
    ∷ []

-- key.replace(/[_-]/g, '').toLowerCase() and the test of the set.
unfoldable pub is_forbidden_key : (Text → Text) → Text → Bool
unfolding text_eq
is_forbidden_key lower key =
    some_of (text_eq (lower (keep (λ c. not (c == b'_' || c == b'-')) key)))
      forbidden_payment_secret_keys

-- A step of the path that the error names, outermost first.
pub data PathStep : Type 0 where
  at_index : ℕ → PathStep
  at_key : Text → PathStep

-- The path to a nested value is the path to its parent with a step at the front; the error's path is
-- read from its end.
unfoldable mutual
  pub assert_no_raw_payment_secrets :
      (Text → Text) → Payload → List PathStep → Result (List PathStep) (Unit {0})
  assert_no_raw_payment_secrets lower scalar path = ok tt
  assert_no_raw_payment_secrets lower (array xs) path = assert_items lower xs 0 path
  assert_no_raw_payment_secrets lower (object fs) path = assert_fields lower fs path

  pub assert_items : (Text → Text) → Items → ℕ → List PathStep → Result (List PathStep) (Unit {0})
  assert_items lower none_left index path = ok tt
  assert_items lower (item v xs) index path =
      assert_no_raw_payment_secrets lower v (at_index index ∷ path)
      >> assert_items lower xs (index + 1) path

  pub assert_fields : (Text → Text) → Fields → List PathStep → Result (List PathStep) (Unit {0})
  assert_fields lower end path = ok tt
  assert_fields lower (field key v fs) path =
      require (not (is_forbidden_key lower key)) (at_key key ∷ path)
      >> (assert_no_raw_payment_secrets lower v (at_key key ∷ path) >> assert_fields lower fs path)

-- A forbidden key stands somewhere in the payload.
mutual
  pub data Holds (lower : Text → Text) : Payload → Type 0 where
    in_array : {xs : Items} → HoldsItems lower xs → Holds lower (array xs)
    in_object : {fs : Fields} → HoldsFields lower fs → Holds lower (object fs)

  pub data HoldsItems (lower : Text → Text) : Items → Type 0 where
    first : {v : Payload} {xs : Items} → Holds lower v → HoldsItems lower (item v xs)
    later : {v : Payload} {xs : Items} → HoldsItems lower xs → HoldsItems lower (item v xs)

  pub data HoldsFields (lower : Text → Text) : Fields → Type 0 where
    key_itself :
        {key : Text} {v : Payload} {fs : Fields}
        → is_forbidden_key lower key ≡ true
        → HoldsFields lower (field key v fs)
    below :
        {key : Text} {v : Payload} {fs : Fields}
        → Holds lower v
        → HoldsFields lower (field key v fs)
    beside :
        {key : Text} {v : Payload} {fs : Fields}
        → HoldsFields lower fs
        → HoldsFields lower (field key v fs)

-- Either nothing is found and the check passes, or something is and it throws.
abbrev Checked : Result (List PathStep) (Unit {0}) → Type 0 → Type 0
Checked r Found = ((r ≡ ok tt) × (Found → ⊥)) ⊎ ((p : List PathStep) × (r ≡ err p) × Found)

module _ {lower : Text → Text} where
  array_inner : {xs : Items} → Holds lower (array xs) → HoldsItems lower xs
  array_inner (in_array h) = h

  object_inner : {fs : Fields} → Holds lower (object fs) → HoldsFields lower fs
  object_inner (in_object h) = h

  no_items : HoldsItems lower none_left → ⊥
  no_items h = elim h [ ]

  no_fields : HoldsFields lower end → ⊥
  no_fields h = elim h [ ]

  item_inner :
      {v : Payload} {xs : Items}
      → HoldsItems lower (item v xs)
      → Holds lower v ⊎ HoldsItems lower xs
  item_inner (first h) = inl h
  item_inner (later h) = inr h

  field_inner :
      {key : Text} {v : Payload} {fs : Fields}
      → HoldsFields lower (field key v fs)
      → (is_forbidden_key lower key ≡ true) ⊎ (Holds lower v ⊎ HoldsFields lower fs)
  field_inner (key_itself h) = inl h
  field_inner (below h) = inr (inl h)
  field_inner (beside h) = inr (inr h)

scalar_clean : (lower : Text → Text) → Holds lower scalar → ⊥
scalar_clean lower h = elim h [ ]

module _ {lower : Text → Text} where
  join_items :
      {v : Payload} {xs : Items} (r s : Result (List PathStep) (Unit {0}))
      → Checked r (Holds lower v)
      → Checked s (HoldsItems lower xs)
      → Checked (r >> s) (HoldsItems lower (item v xs))
  join_items r s (inr (p, throws, found)) rest = inr (p, rw throws refl, first found)
  join_items r s (inl (passes, clean)) (inr (p, throws, found)) =
      inr (p, rw passes throws, later found)
  join_items r s (inl (passes, clean)) (inl (all, empty)) =
      inl (
        rw passes all,
        λ h. elim (item_inner h) [ inl here ↦ clean here | inr there ↦ empty there ],
      )

  join_rest :
      (key : Text) {v : Payload} {fs : Fields} (r s : Result (List PathStep) (Unit {0}))
      → is_forbidden_key lower key ≡ false
      → Checked r (Holds lower v)
      → Checked s (HoldsFields lower fs)
      → Checked (r >> s) (HoldsFields lower (field key v fs))
  join_rest key r s fine (inr (p, throws, found)) rest = inr (p, rw throws refl, below found)
  join_rest key r s fine (inl (passes, clean)) (inr (p, throws, found)) =
      inr (p, rw passes throws, beside found)
  join_rest key r s fine (inl (passes, clean)) (inl (all, empty)) = inl (
    rw passes all,
    λ h. elim (field_inner h) [
      | inl bad ↦ cc
      | inr (inl here) ↦ clean here
      | inr (inr there) ↦ empty there
    ],
  )

  join_fields :
      (key : Text) {v : Payload} {fs : Fields} (here : List PathStep)
      (r s : Result (List PathStep) (Unit {0}))
      → Checked r (Holds lower v)
      → Checked s (HoldsFields lower fs)
      → Checked
          (require (not (is_forbidden_key lower key)) here >> (r >> s))
          (HoldsFields lower (field key v fs))
  join_fields key here r s below_ beside_ = elim (Bool-cases (is_forbidden_key lower key)) [
    | inl bad ↦ inr (here, rw bad refl, key_itself bad)
    | inr fine ↦ rw fine (join_rest key r s fine below_ beside_)
  ]

mutual
  unfolding assert_no_raw_payment_secrets assert_items assert_fields

  checked :
      (lower : Text → Text) (v : Payload) (path : List PathStep)
      → Checked (assert_no_raw_payment_secrets lower v path) (Holds lower v)
  checked lower scalar path = inl (refl, scalar_clean lower)
  checked lower (array xs) path = elim (checked_items lower xs 0 path) [
    | inl (passes, clean) ↦ inl (passes, λ h. clean (array_inner h))
    | inr (p, throws, found) ↦ inr (p, throws, in_array found)
  ]
  checked lower (object fs) path = elim (checked_fields lower fs path) [
    | inl (passes, clean) ↦ inl (passes, λ h. clean (object_inner h))
    | inr (p, throws, found) ↦ inr (p, throws, in_object found)
  ]

  checked_items :
      (lower : Text → Text) (xs : Items) (index : ℕ) (path : List PathStep)
      → Checked (assert_items lower xs index path) (HoldsItems lower xs)
  checked_items lower none_left index path = inl (refl, no_items)
  checked_items lower (item v xs) index path =
      join_items _ _ (checked lower v (at_index index ∷ path))
        (checked_items lower xs (index + 1) path)

  checked_fields :
      (lower : Text → Text) (fs : Fields) (path : List PathStep)
      → Checked (assert_fields lower fs path) (HoldsFields lower fs)
  checked_fields lower end path = inl (refl, no_fields)
  checked_fields lower (field key v fs) path =
      join_fields key (at_key key ∷ path) _ _ (checked lower v (at_key key ∷ path))
        (checked_fields lower fs path)

-- The check of a payload passes exactly when no forbidden key stands at any depth of it; otherwise
-- it throws.
pub assert_no_raw_iff :
    (lower : Text → Text) (v : Payload) (path : List PathStep)
    → ((assert_no_raw_payment_secrets lower v path ≡ ok tt) ↔ (Holds lower v → ⊥))
      × (Holds lower v → (p : List PathStep) × (assert_no_raw_payment_secrets lower v path ≡ err p))
assert_no_raw_iff lower v path = elim (checked lower v path) [
  | inl (passes, clean) ↦ (((λ _. clean), (λ _. passes)), λ h. absurd (clean h))
  | inr (p, throws, found) ↦ (((λ passes. cc), (λ clean. absurd (clean found))), λ _. (p, throws))
]
