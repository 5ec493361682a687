-- ===== src/History/Commands.antt =====
-- services/api/src/modules/dispatch/dispatch-service.ts: every command of Dispatch keeps the tables
-- of bookings what their log says.
use dazat_mobility.Base.{
  ℕ, ◌+◌, true, Option, ◌≡◌, refl, arith, inl, inr, Option-cases, not, not_after,
}
use dazat_mobility.Base.Texts.{Text, units}
use dazat_mobility.Base.Results.{ok, Result-cases}
use dazat_mobility.Booking.Status.{
  BookingStatus, searching_for_driver, can_use_canonical_forward_transition,
}
use dazat_mobility.Dispatch.Availability.{DriverAvailabilityStatus, assigned}
use dazat_mobility.Dispatch.Market.{
  Market, settled, next_id, made, OfferRow, AvailabilityRow, ResponseReason, conflict,
  unique_violation, attributed,
}
use dazat_mobility.Dispatch.Lookup.{
  DispatchActor, InternalEligibility, availability_of, read_driver_eligibility,
}
use dazat_mobility.Dispatch.Steps.{
  BookingDispatchContext, World, answer_and_attribute, has_status, is_offered, read_booking_context,
  store_availability_transition,
}
use dazat_mobility.Dispatch.Shifts.{record_driver_shift_availability_event}
use dazat_mobility.Dispatch.Rules.{
  After, After-if, After-ensure, After-or_rollback, After-or_stored, After-own_offer,
}
use dazat_mobility.Dispatch.Offers.{
  declined_before, decline_fresh, store_decline, decline_driver_offer, expire_lapsed_offers,
  list_driver_offers,
}
use dazat_mobility.Dispatch.Accept.{
  accept_actionable, accept_decided, accept_driver_offer, accept_fresh, acceptance_query, allows,
}
use dazat_mobility.Dispatch.Assigning.{
  accepted_before, assign, assign_driver, attempt_is_offering, expire_offer, shift_region,
  shift_vehicle, store_assignment, withdraw_ineligible,
}
use dazat_mobility.History.{IsReplayed, Quiet, Quiet-IsReplayed}
use dazat_mobility.History.Dispatching.{append-IsReplayed, has_status-eq}

-- The tables of bookings in those of Dispatch.
abbrev pub Told : Market → Type 0
Told m = IsReplayed m.store

pub shift-Quiet :
    (driver : ℕ) (from to : DriverAvailabilityStatus) (version : ℕ) (region : Option Text)
    (vehicle : Option ℕ) (command : ℕ) (m after : Market)
    → record_driver_shift_availability_event driver from to version region vehicle command m
      ≡ ok after
    → Quiet m.store after.store
unfolding record_driver_shift_availability_event
shift-Quiet driver from to version region vehicle command m after h = record {
  later = ground arith;
  bookings = ground arith;
  transitions = ground arith;
}

assign_driver-Told :
    (actor : DispatchActor) (driver : ℕ) (o : OfferRow) (booking : BookingDispatchContext)
    (row : AvailabilityRow) (m after : Market)
    → Told m
    → booking.status ≡ searching_for_driver
    → assign_driver actor driver o booking row m ≡ ok after
    → Told after
unfolding store_availability_transition store_assignment can_use_canonical_forward_transition
assign_driver-Told actor driver o booking row m after inv searching h =
    let version = row.version + 1 in
    let moved =
      store_availability_transition driver row.status assigned version (next_id m + 3)
        (store_assignment (next_id m + 2) driver o (made 4 m)) in
    let counted : Told moved =
      Quiet-IsReplayed m.store moved.store
        (record { later = omega arith; bookings = refl; transitions = refl }) inv in
    elim (Result-cases (
      record_driver_shift_availability_event driver row.status assigned version
        (shift_region m driver booking.region_code) (shift_vehicle m driver o.vehicle_id)
        (next_id m + 3) moved)) [
          | inr (e, failed) ↦ absurd (ground arith)
          | inl (shifted, done) ↦
              append-IsReplayed booking BookingStatus.driver_assigned actor.account_id
                (units "DRIVER_OFFER_ACCEPTED") (next_id m + 1) (next_id m) shifted after
                (rw searching refl)
                (Quiet-IsReplayed moved.store shifted.store
                  (shift-Quiet driver row.status assigned version
                    (shift_region m driver booking.region_code)
                    (shift_vehicle m driver o.vehicle_id) (next_id m + 3) moved shifted done)
                  counted)
                (ground arith)
        ]

assign-Told :
    (actor : DispatchActor) (driver : ℕ) (o : OfferRow) (booking : BookingDispatchContext)
    (m after : Market)
    → Told m
    → booking.status ≡ searching_for_driver
    → assign actor driver o booking m ≡ ok after
    → Told after
unfolding assign
assign-Told actor driver o booking m after inv searching h =
    elim (Option-cases (availability_of m driver)) [
      | inl gone ↦ absurd (ground arith)
      | inr (row, there) ↦
          assign_driver-Told actor driver o booking row m after inv searching (ground arith)
    ]

module _ (world : World) (actor : DispatchActor) (driver : ℕ) (o : OfferRow) (key : Text)
    (m : Market) (inv : Told m) where
  accept_decided-Told :
      (booking : BookingDispatchContext) (decided : InternalEligibility)
      → has_status searching_for_driver booking.status ≡ true
      → After Told m (accept_decided world actor driver o booking key m decided)
  unfolding withdraw_ineligible
  accept_decided-Told booking decided searching =
      After-if Told m inv decided.decision.eligible _ _
        (λ eligible. After-or_rollback Told m inv (assign actor driver o booking m) _ (λ after h.
          assign-Told actor driver o booking m after inv
            (has_status-eq searching_for_driver booking.status searching) h))
        (λ blocked.
          After-ensure Told m inv (not (attributed o.id m.attributions)) unique_violation _
            (λ fresh. inv))

  accept_actionable-Told : After Told m (accept_actionable world actor driver o key m)
  accept_actionable-Told =
      After-or_rollback Told m inv (read_booking_context world m.store o.booking_id) _
        (λ booking read.
          After-ensure Told m inv (has_status searching_for_driver booking.status) conflict _
            (λ searching.
              After-or_rollback Told m inv
                (read_driver_eligibility world.registry world.config m world.now driver
                  actor.account_active (acceptance_query world o booking) booking.requirements)
                _ (λ decided read_too. accept_decided-Told booking decided searching)))

  accept_fresh-Told : After Told m (accept_fresh world actor driver o key m)
  unfolding expire_offer
  accept_fresh-Told =
      After-ensure Told m inv (attempt_is_offering m o.attempt_id) conflict _ (λ lasting.
        After-ensure Told m inv (is_offered o.status) conflict _ (λ unanswered.
          After-if Told m inv (not_after o.expires_at world.now) _ _ (λ lapsed. inv)
            (λ current.
              After-ensure Told m inv (allows o.acceptance_allowed) conflict _
                (λ informed. accept_actionable-Told))))

  decline_fresh-Told :
      (reason : ResponseReason) → After Told m (decline_fresh world driver o reason key m)
  unfolding store_decline
  decline_fresh-Told reason =
      After-ensure Told m inv (is_offered o.status) conflict _ (λ unanswered.
        After-ensure Told m inv (not (not_after o.expires_at world.now)) conflict _ (λ lasting.
          After-ensure Told m inv (not (attributed o.id m.attributions)) unique_violation _
            (λ fresh.
              Quiet-IsReplayed m.store (made 1 m).store
                (record { later = omega arith; bookings = refl; transitions = refl }) inv)))

pub accept_driver_offer-Told :
    (world : World) (actor : DispatchActor) (offer : ℕ) (key : Text) (m : Market)
    → Told m
    → Told (settled m (accept_driver_offer world actor offer key m)).1
unfolding accept_driver_offer
accept_driver_offer-Told world actor offer key m inv =
    After-own_offer Told m inv actor offer _ (λ driver o found.
      After-or_stored Told m inv (accepted_before m.commands driver key)
        (accept_fresh world actor driver o key m)
        (accept_fresh-Told world actor driver o key m inv))

pub decline_driver_offer-Told :
    (world : World) (actor : DispatchActor) (offer : ℕ) (reason : ResponseReason) (key : Text)
    (m : Market)
    → Told m
    → Told (settled m (decline_driver_offer world actor offer reason key m)).1
unfolding decline_driver_offer
decline_driver_offer-Told world actor offer reason key m inv =
    After-own_offer Told m inv actor offer _ (λ driver o found.
      After-or_stored Told m inv (declined_before m.commands driver key)
        (decline_fresh world driver o reason key m)
        (decline_fresh-Told world actor driver o key m inv reason))

pub list_driver_offers-Told :
    (world : World) (actor : DispatchActor) (m : Market)
    → Told m
    → Told (settled m (list_driver_offers world actor m)).1
unfolding list_driver_offers expire_lapsed_offers answer_and_attribute
list_driver_offers-Told world actor m inv = elim (Option-cases actor.driver_profile_id) [
  | inl gone ↦ rw gone inv
  | inr (driver, known) ↦ rw known inv
]
