-- ===== src/CoreJourney/Slice.antt =====
-- packages/domain/src/core-journey-vertical-slice.ts. A thrown error is `err`; the local variables
-- `bookingStatus` and `milestones` are a state that `advance` returns anew.
use dazat_mobility.Base.{
  Bool, true, false, Option, none, some, List, [], ◌∷◌, ◌++◌, head_or, map, Date, Number,
  if◌then◌else◌,
}
use dazat_mobility.Base.Texts.{Text}
use dazat_mobility.Base.Results.{Result, ok, err, ◌>>=◌, ◌>>◌}
use dazat_mobility.Pricing.{
  PricingError, QuoteStatus, assert_money_minor_units, assert_currency_code, is_quote_usable,
}
use dazat_mobility.Booking.Status.{
  BookingStatus, TransitionError, assert_canonical_forward_transition,
}
use dazat_mobility.Dispatch.Eligibility.{
  DriverDispatchEligibilityInput, DriverEligibilityBlocker, evaluate_driver_dispatch_eligibility,
}
use dazat_mobility.Journey.Status.{JourneyStatus}
use dazat_mobility.Journey.Location.{
  MathOps, LocationObservationInput, LocationEvidencePolicy, LocationBlocker, Place,
  evaluate_arrival_evidence,
}
use dazat_mobility.Journey.RideCheck.{
  RideCheckStatus, AttemptReason, evaluate_ride_check_attempt, can_start_journey,
}
use dazat_mobility.Journey.Live.{
  CompletionDecisionInput, CompletionBlocker, evaluate_journey_completion,
}

pub record CoreJourneyInput : Type 0 where
  pub now : Date
  pub amount_minor : Number
  pub currency : Text
  pub quote_expires_at : Date
  pub driver : DriverDispatchEligibilityInput
  pub pickup : Place
  pub pickup_observation : LocationObservationInput
  pub location_policy : LocationEvidencePolicy
  pub arrival_radius_metres : Number
  pub verifier_matches : Bool
  pub ride_check_expires_at : Date
  pub completion : CompletionDecisionInput

-- The texts that `blocker` can hold, by the place that gives them.
pub data SliceBlocker : Type 0 where
  quote_unusable no_eligible_driver outside_pickup_radius journey_start_blocked : SliceBlocker
  completion_blocked : SliceBlocker
  driver : DriverEligibilityBlocker → SliceBlocker
  location : LocationBlocker → SliceBlocker
  ridecheck : AttemptReason → SliceBlocker
  completion : CompletionBlocker → SliceBlocker

pub record CoreJourneyResult : Type 0 where
  pub completed : Bool
  pub booking_status : BookingStatus
  pub milestones : List BookingStatus
  pub blocker : Option SliceBlocker

pub data SliceError : Type 0 where
  pricing : PricingError → SliceError
  transition : TransitionError → SliceError

pub record Progress : Type 0 where
  pub status : BookingStatus
  pub milestones : List BookingStatus

abbrev pub start : Progress
start = record { status = BookingStatus.draft; milestones = [] }

abbrev pub from_pricing : {A : Type 0} → Result PricingError A → Result SliceError A
from_pricing (ok a) = ok a
from_pricing (err e) = err (pricing e)

abbrev from_transition : {A : Type 0} → Result TransitionError A → Result SliceError A
from_transition (ok a) = ok a
from_transition (err e) = err (transition e)

unfoldable advance : BookingStatus → Progress → Result SliceError Progress
advance next p = do
  from_transition (assert_canonical_forward_transition p.status next)
  ok (record { status = next; milestones = p.milestones ++ (next ∷ []) })

abbrev stopped : Progress → SliceBlocker → Result SliceError CoreJourneyResult
stopped p b = ok (record {
  completed = false;
  booking_status = p.status;
  milestones = p.milestones;
  blocker = some b;
})

-- From the governed completion on.
unfoldable pub run_completion : CoreJourneyInput → Progress → Result SliceError CoreJourneyResult
unfolding advance
run_completion i p = do
  p ← advance BookingStatus.in_progress p
  p ← advance BookingStatus.arriving p
  let decision = evaluate_journey_completion i.completion
  if decision.allowed
      then (do
        p ← advance BookingStatus.completed p
        ok (record {
          completed = true;
          booking_status = p.status;
          milestones = p.milestones;
          blocker = none;
        }))
      else stopped p (head_or completion_blocked (map completion decision.blockers))

-- From the RideCheck on, with the eligibility and the acceptance of the arrival found before.
unfoldable pub run_ride_check :
    CoreJourneyInput → Bool → Bool → Progress → Result SliceError CoreJourneyResult
unfolding advance
run_ride_check i eligible arrived p = do
  p ← advance BookingStatus.driver_arrived p
  p ← advance BookingStatus.awaiting_ridecheck p
  let attempt = evaluate_ride_check_attempt (record {
    status = RideCheckStatus.pending;
    verifier_matches = i.verifier_matches;
    attempts_used = 0;
    maximum_attempts = 3;
    expires_at = i.ride_check_expires_at;
    now = i.now;
  })
  if attempt.accepted
      then (do
        p ← advance BookingStatus.passenger_verified p
        if can_start_journey (record {
          journey_status = JourneyStatus.passenger_verified;
          ride_check_status = some attempt.next_status;
          assignment_active = true;
          assignment_still_eligible = eligible;
          active_operational_hold = false;
          pickup_evidence_accepted = arrived;
        })
            then run_completion i p
            else stopped p journey_start_blocked)
      else stopped p (ridecheck attempt.reason)

-- From the assignment of the Driver on.
unfoldable pub run_arrival :
    MathOps → CoreJourneyInput → Bool → Progress → Result SliceError CoreJourneyResult
unfolding advance
run_arrival m i eligible p = do
  p ← advance BookingStatus.driver_assigned p
  p ← advance BookingStatus.driver_en_route p
  let arrival =
      evaluate_arrival_evidence m i.pickup_observation i.pickup i.location_policy
        i.arrival_radius_metres
  if arrival.accepted
      then run_ride_check i eligible arrival.accepted p
      else stopped p (head_or outside_pickup_radius (map location arrival.location.blockers))

-- From the confirmation of a usable quote on.
unfoldable pub run_dispatch :
    MathOps → CoreJourneyInput → Progress → Result SliceError CoreJourneyResult
unfolding advance
run_dispatch m i p = do
  p ← advance BookingStatus.awaiting_confirmation p
  p ← advance BookingStatus.confirmed p
  p ← advance BookingStatus.ready_for_dispatch p
  p ← advance BookingStatus.searching_for_driver p
  let eligibility = evaluate_driver_dispatch_eligibility i.driver i.now
  if eligibility.eligible
      then run_arrival m i eligibility.eligible p
      else stopped p (head_or no_eligible_driver (map driver eligibility.blockers))

-- `upper` is the `toUpperCase` of `assertCurrencyCode`.
unfoldable pub run_provider_disabled_core_journey :
    MathOps → (Text → Text) → CoreJourneyInput → Result SliceError CoreJourneyResult
unfolding advance
run_provider_disabled_core_journey m upper i = do
  from_pricing (assert_money_minor_units i.amount_minor)
  from_pricing (assert_currency_code upper i.currency)
  p ← advance BookingStatus.quote_created start
  if is_quote_usable QuoteStatus.offered i.quote_expires_at i.now
      then run_dispatch m i p
      else stopped p quote_unusable
