-- ===== src/Dispatch/Rules.antt =====
-- services/api/src/modules/dispatch/dispatch-service.ts: rules for what holds of the tables after a
-- transaction, one for each construct of its statements.
use dazat_mobility.Base.{
  ℕ, Bool, true, false, Option, none, some, ◌==◌, if◌then◌else◌, ◌≡◌, refl, inl, inr, Bool-cases,
  Option-cases,
}
use dazat_mobility.Base.Results.{Result, ok, err}
use dazat_mobility.Dispatch.Market.{
  OfferRow, Market, DispatchError, Ended, settled, ensure, with_row,
}
use dazat_mobility.Dispatch.Lookup.{DispatchActor}
use dazat_mobility.Dispatch.Steps.{find_offer, or_rollback}
use dazat_mobility.Dispatch.Offers.{own_offer, or_stored}
use dazat_mobility.Dispatch.Intent.{ended_with}

-- P holds of the tables that the transaction leaves.
abbrev pub After : (Market → Type 0) → {A : Type 0} → Market → Ended A → Type 0
After P m e = P (settled m e).1

module _ (P : Market → Type 0) {A : Type 0} (m : Market) (before : P m) where
  pub After-ensure :
      (test : Bool) (e : DispatchError) (rest : Ended A)
      → (test ≡ true → After P m rest)
      → After P m (ensure test e rest)
  After-ensure true e rest h = h refl
  After-ensure false e rest h = before

  pub After-if :
      (test : Bool) (yes_case no_case : Ended A)
      → (test ≡ true → After P m yes_case)
      → (test ≡ false → After P m no_case)
      → After P m (if test then yes_case else no_case)
  After-if true a b h k = h refl
  After-if false a b h k = k refl

  pub After-with_row :
      {B : Type 0} (row : Option B) (e : DispatchError) (rest : B → Ended A)
      → ((b : B) → row ≡ some b → After P m (rest b))
      → After P m (with_row row e rest)
  After-with_row none e rest h = before
  After-with_row (some b) e rest h = h b refl

  pub After-or_rollback :
      {B : Type 0} (r : Result DispatchError B) (rest : B → Ended A)
      → ((b : B) → r ≡ ok b → After P m (rest b))
      → After P m (or_rollback r rest)
  After-or_rollback (err e) rest h = before
  After-or_rollback (ok b) rest h = h b refl

  pub After-or_stored :
      (stored : Option A) (rest : Ended A) → After P m rest → After P m (or_stored stored m rest)
  After-or_stored none rest h = h
  After-or_stored (some a) rest h = before

  pub After-ended_with :
      (r : Result DispatchError (A × Market))
      → ((a : A) (after : Market) → r ≡ ok (a, after) → P after)
      → After P m (ended_with r)
  After-ended_with (err e) h = before
  After-ended_with (ok (a, after)) h = h a after refl

  pub After-own_offer :
      (actor : DispatchActor) (offer : ℕ) (rest : ℕ → OfferRow → Ended A)
      → ((driver : ℕ) (o : OfferRow) → find_offer m offer ≡ some o → After P m (rest driver o))
      → After P m (own_offer actor offer m rest)
  After-own_offer actor offer rest h = elim (Option-cases actor.driver_profile_id) [
    | inl gone ↦ rw gone before
    | inr (driver, known) ↦ elim (Option-cases (find_offer m offer)) [
      | inl missing ↦ rw (known, missing) before
      | inr (o, found) ↦ elim (Bool-cases (o.driver_id == driver)) [
        | inl own ↦ rw (known, found, own) (h driver o found)
        | inr foreign ↦ rw (known, found, foreign) before
      ]
    ]
  ]
