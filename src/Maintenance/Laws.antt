-- ===== src/Maintenance/Laws.antt =====
-- The pre-shift check (maintenance-reliability.ts).
use dazat_mobility.Base.{
  Bool, true, false, not, ◌&&◌, ◌||◌, List, [], ◌∷◌, ◌≡◌, ◌≢◌, refl, ◌↔◌, ◌⊎◌, inl, inr, arith, All,
  some_of, includes, map, keep, same_refl,
}
use dazat_mobility.Base.Texts.{has_content_opt}
use dazat_mobility.Base.Results.{ok, require, ◌>>◌}
use dazat_mobility.Maintenance.{
  PreShiftItemResult, PreShiftItemResult-discrete, not_sure, not_applicable, PreShiftCheckItem,
  accessibility_equipment, pre_shift_check_items, tyres, lights, brakes, steering, mirrors,
  seatbelts, warning_indicators, PreShiftCheckInput, PreShiftCheckDecision, pre_shift_decision,
  evaluate_pre_shift_check, core_item_not_applicable, is_core, is_not_applicable, routine,
}

or-false : (a b : Bool) → a || b ≡ false → (a ≡ false) × (b ≡ false)
or-false a b h = ground arith

-- Every item passed or, for the accessibility equipment only, does not apply, and no concern is written.
abbrev pub IsClear : PreShiftCheckInput → Type 0
IsClear i =
    ((x : PreShiftCheckItem)
      → (i.items x ≡ PreShiftItemResult.pass)
        ⊎ ((x ≡ accessibility_equipment) × (i.items x ≡ not_applicable)))
    × (has_content_opt i.uncertain_concern_text ≡ false)

includes-none :
    (rs : List PreShiftItemResult) (r : PreShiftItemResult)
    → includes PreShiftItemResult-discrete rs r ≡ false
    → All (λ x. x ≢ r) rs
includes-none [] r h = tt
includes-none (x ∷ rs) r h =
    let rest = includes-none rs r in
    let self = same_refl PreShiftItemResult-discrete r in (λ e. cc, rest (or-false _ _ h).1)

some-none :
    (p : PreShiftCheckItem → Bool) (xs : List PreShiftCheckItem)
    → some_of p xs ≡ false
    → All (λ x. p x ≡ false) xs
some-none p [] h = tt
some-none p (x ∷ xs) h = ((or-false _ _ h).0, some-none p xs (or-false _ _ h).1)

-- The member of a statement on every item that is about one of them.
of_item :
    (P : PreShiftCheckItem → Type 0) → All P pre_shift_check_items → (x : PreShiftCheckItem) → P x
of_item P h tyres = h.0
of_item P h lights = h.1.0
of_item P h brakes = h.1.1.0
of_item P h steering = h.1.1.1.0
of_item P h mirrors = h.1.1.1.1.0
of_item P h seatbelts = h.1.1.1.1.1.0
of_item P h warning_indicators = h.1.1.1.1.1.1.0
of_item P h accessibility_equipment = h.1.1.1.1.1.1.1.0

passed_or :
    (r : PreShiftItemResult)
    → r ≢ PreShiftItemResult.fail
    → r ≢ not_sure
    → (r ≡ PreShiftItemResult.pass) ⊎ (r ≡ not_applicable)
passed_or PreShiftItemResult.pass f u = inl refl
passed_or PreShiftItemResult.fail f u = absurd (f refl)
passed_or not_sure f u = absurd (u refl)
passed_or not_applicable f u = inr refl

exempt :
    (x : PreShiftCheckItem) (r : PreShiftItemResult)
    → (r ≡ PreShiftItemResult.pass) ⊎ (r ≡ not_applicable)
    → is_core x && is_not_applicable r ≡ false
    → (r ≡ PreShiftItemResult.pass) ⊎ ((x ≡ accessibility_equipment) × (r ≡ not_applicable))
exempt x r h k = ground arith

-- The decision over any results: the two tests are those of the check.
shape :
    (na failed unsure text : Bool) (d : PreShiftCheckDecision)
    → (require (not na) core_item_not_applicable >> ok (pre_shift_decision failed (unsure || text)))
      ≡ ok d
    → ((d.vehicle_use_permitted ≡ true) ↔ (d.create_defect ≡ false))
      × ((d.vehicle_use_permitted ≡ true) ↔ (d.maintenance_urgency ≡ routine))
      × (d.vehicle_use_permitted ≡ true
          → (na ≡ false) × (failed ≡ false) × (unsure ≡ false) × (text ≡ false))
shape na failed unsure text d h = ground arith

items_clear :
    (f : PreShiftCheckItem → PreShiftItemResult)
    → some_of (λ x. is_not_applicable (f x)) (keep is_core pre_shift_check_items) ≡ false
    → includes PreShiftItemResult-discrete (map f pre_shift_check_items) PreShiftItemResult.fail
      ≡ false
    → includes PreShiftItemResult-discrete (map f pre_shift_check_items) not_sure ≡ false
    → (x : PreShiftCheckItem)
    → (f x ≡ PreShiftItemResult.pass) ⊎ ((x ≡ accessibility_equipment) × (f x ≡ not_applicable))
items_clear f na no_fail sure x =
    let results = map f pre_shift_check_items in
    let a =
      of_item (λ y. f y ≢ PreShiftItemResult.fail)
        (includes-none results PreShiftItemResult.fail no_fail) x in
    let b = of_item (λ y. f y ≢ not_sure) (includes-none results not_sure sure) x in
    let c = passed_or (f x) a b in
    let n = some-none (λ y. is_not_applicable (f y)) (keep is_core pre_shift_check_items) na in
    let core =
      of_item (λ y. is_core y && is_not_applicable (f y) ≡ false)
        (
          n.0,
          (
            n.1.0,
            (n.1.1.0, (n.1.1.1.0, (n.1.1.1.1.0, (n.1.1.1.1.1.0, (n.1.1.1.1.1.1.0, (refl, tt)))))),
          ),
        )
        x in
    exempt x (f x) c core

-- A pre-shift check that returns permits the use of the vehicle exactly when it creates no defect,
-- which is exactly when it asks for routine maintenance only; and then every item has passed, or
-- does not apply if it is the accessibility equipment, and no concern was written.
pub pre_shift_permits :
    (i : PreShiftCheckInput) (d : PreShiftCheckDecision)
    → evaluate_pre_shift_check i ≡ ok d
    → ((d.vehicle_use_permitted ≡ true) ↔ (d.create_defect ≡ false))
      × ((d.vehicle_use_permitted ≡ true) ↔ (d.maintenance_urgency ≡ routine))
      × (d.vehicle_use_permitted ≡ true → IsClear i)
unfolding evaluate_pre_shift_check
pre_shift_permits i d h =
    let results = map i.items pre_shift_check_items in
    let parts =
      shape (some_of (λ x. is_not_applicable (i.items x)) (keep is_core pre_shift_check_items))
        (includes PreShiftItemResult-discrete results PreShiftItemResult.fail)
        (includes PreShiftItemResult-discrete results not_sure)
        (has_content_opt i.uncertain_concern_text) d h in
    (
      parts.0,
      parts.1,
      λ p. let clear = parts.2 p in (items_clear i.items clear.0 clear.1 clear.2, clear.3),
    )
