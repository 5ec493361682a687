-- ===== src/Dispatch/Assigning.antt =====
-- services/api/src/modules/dispatch/dispatch-service.ts: what acceptDriverOffer stores.
use dazat_mobility.Base.{
  ℕ, ◌+◌, Bool, true, false, ◌&&◌, ◌||◌, not, Option, none, some, List, [], ◌∷◌, ◌++◌, ◌==◌,
  if◌then◌else◌, same, some_of, keep,
}
use dazat_mobility.Base.Texts.{Text, units, text_eq}
use dazat_mobility.Base.Results.{Result, require, ◌>>=◌, ◌>>◌}
use dazat_mobility.Booking.Status.{BookingStatus}
use dazat_mobility.Booking.Store.{first_of, update_where}
use dazat_mobility.Dispatch.Availability.{
  DriverAvailabilityStatus, DriverAvailabilityStatus-discrete, assigned, DriverOfferStatus,
  accepted, expired, withdrawn, can_transition_driver_availability,
}
use dazat_mobility.Dispatch.Eligibility.{not_available}
use dazat_mobility.Dispatch.Market.{
  DispatchAttemptStatus, offering, AttemptRow, ResponseReason, ttl_expired,
  driver_became_ineligible, booking_assigned, OfferRow, AssignmentStatus, AvailabilityRow,
  OfferOutcome, AcceptDriverOfferResult, offer_accepted, DispatchCommandRow, Market, DispatchError,
  unique_violation, invalid_availability_transition, driver_not_eligible, next_id, made, attributed,
  attribute_once,
}
use dazat_mobility.Dispatch.Lookup.{DispatchActor, availability_of, is_active_status}
use dazat_mobility.Dispatch.Steps.{
  BookingDispatchContext, answer_offers, append_booking_transition, attribute, attribute_each,
  attribution, is_offered, row_or, store_availability_transition,
}
use dazat_mobility.Dispatch.Shifts.{active_shift, record_driver_shift_availability_event}
use dazat_mobility.Dispatch.Offers.{is_command}

unfoldable pub accepted_before : List DispatchCommandRow → ℕ → Text → Option AcceptDriverOfferResult
unfolding text_eq
accepted_before [] driver key = none
accepted_before (c ∷ rows) driver key =
    let rest = accepted_before rows driver key in
    elim c.response [
      | offer_accepted r ↦ if is_command key driver c then some r else rest
      | _ ↦ rest
    ]

-- UPDATE ... SET status = 'EXPIRED' and its attribution.
unfoldable pub expire_offer : ℕ → OfferRow → Market → Market
expire_offer driver o m =
    let after = answer_offers (λ r. r.id == o.id) expired (some ttl_expired) m in
    record after {
      attributions =
          attribute_once (attribution o.id driver OfferOutcome.timed_out (some ttl_expired) false)
            after.attributions;
    }

-- The offer of a Driver who is not eligible any more.
unfoldable pub withdraw_ineligible : ℕ → OfferRow → Market → Market
withdraw_ineligible driver o m =
    attribute (attribution o.id driver OfferOutcome.driver_became_ineligible none false)
      (answer_offers (λ r. r.id == o.id) withdrawn (some driver_became_ineligible) m)

abbrev is_offering : DispatchAttemptStatus → Bool
is_offering offering = true
is_offering _ = false

abbrev row_is_offering : Option AttemptRow → Bool
row_is_offering none = false
row_is_offering (some a) = is_offering a.status

-- `attempt.rows[0]?.status` is OFFERING.
abbrev pub offering_in : List AttemptRow → ℕ → Bool
offering_in attempts attempt = row_is_offering (first_of (λ a. a.id == attempt) attempts)

abbrev pub attempt_is_offering : Market → ℕ → Bool
attempt_is_offering m attempt = offering_in m.attempts attempt

-- The two partial unique indexes of driver_assignment.
abbrev pub is_taken : Market → ℕ → ℕ → Bool
is_taken m booking driver =
    some_of (λ a. is_active_status a.status && (a.booking_id == booking || a.driver_id == driver))
      m.assignments

abbrev pub other_offer : OfferRow → OfferRow → Bool
other_offer o r = r.attempt_id == o.attempt_id && (not (r.id == o.id) && is_offered r.status)

-- status = 'WITHDRAWN' AND response_reason = 'BOOKING_ASSIGNED'
abbrev withdrawn_for_booking : DriverOfferStatus → Option ResponseReason → Bool
withdrawn_for_booking withdrawn (some booking_assigned) = true
withdrawn_for_booking _ _ = false

-- The offers that the statement on ASSIGNED_ELSEWHERE selects.
abbrev pub assigned_elsewhere : OfferRow → OfferRow → Bool
assigned_elsewhere o r =
    r.attempt_id == o.attempt_id && (not (r.id == o.id) && withdrawn_for_booking r.status r.reason)

-- The assignment, the answers to the offers of the attempt, their attributions and the attempt.
unfoldable pub store_assignment : ℕ → ℕ → OfferRow → Market → Market
store_assignment assignment driver o m =
    let answered = answer_offers (other_offer o) withdrawn (some booking_assigned) (record m {
      offers = update_where (λ r. r.id == o.id) (λ r. record r { status = accepted }) m.offers;
    }) in
    record answered {
      assignments =
          m.assignments
          ++ record {
            id = assignment;
            attempt_id = o.attempt_id;
            offer_id = o.id;
            booking_id = o.booking_id;
            driver_id = driver;
            vehicle_id = o.vehicle_id;
            status = AssignmentStatus.active;
          }
            ∷ [];
      attributions =
          attribute_each OfferOutcome.assigned_elsewhere booking_assigned
            (keep (assigned_elsewhere o) answered.offers)
            (m.attributions ++ attribution o.id driver OfferOutcome.accepted none false ∷ []);
      attempts =
          update_where (λ a. a.id == o.attempt_id)
            (λ a. record a { status = DispatchAttemptStatus.assigned }) m.attempts;
    }

-- The region and the vehicle of the current shift, or those of the booking and of the offer.
abbrev pub shift_region : Market → ℕ → Text → Option Text
shift_region m driver region = elim (active_shift m driver) [
  | none ↦ some region
  | some s ↦ some s.region_code
]

abbrev pub shift_vehicle : Market → ℕ → ℕ → Option ℕ
shift_vehicle m driver vehicle = elim (active_shift m driver) [
  | none ↦ some vehicle
  | some s ↦ some s.vehicle_id
]

unfoldable pub may_become_assigned : DriverAvailabilityStatus → Bool
unfolding can_transition_driver_availability DriverAvailabilityStatus-discrete
may_become_assigned from =
    same DriverAvailabilityStatus-discrete from assigned
    || can_transition_driver_availability from assigned

abbrev pub assign_driver :
    DispatchActor
    → ℕ
    → OfferRow
    → BookingDispatchContext
    → AvailabilityRow
    → Market
    → Result DispatchError Market
assign_driver actor driver o booking row m = do
  require (may_become_assigned row.status) invalid_availability_transition
  let command = next_id m
  let version = row.version + 1
  let stored = store_assignment (command + 2) driver o (made 4 m)
  let moved = store_availability_transition driver row.status assigned version (command + 3) stored
  shifted ←
      record_driver_shift_availability_event driver row.status assigned version
        (shift_region m driver booking.region_code) (shift_vehicle m driver o.vehicle_id)
        (command + 3) moved
  append_booking_transition booking BookingStatus.driver_assigned actor.account_id
      (units "DRIVER_OFFER_ACCEPTED") (command + 1) command shifted

-- The statements from the assignment to the transition of the booking. The command, the
-- correlation, the assignment and the availability command have the next four identifiers.
unfoldable pub assign :
    DispatchActor → ℕ → OfferRow → BookingDispatchContext → Market → Result DispatchError Market
unfolding may_become_assigned store_assignment store_availability_transition
    record_driver_shift_availability_event append_booking_transition
assign actor driver o booking m = do
  require (not (is_taken m o.booking_id driver)) unique_violation
  require (not (attributed o.id m.attributions)) unique_violation
  row ← row_or (driver_not_eligible (not_available ∷ [])) (availability_of m driver)
  assign_driver actor driver o booking row m
