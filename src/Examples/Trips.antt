-- ===== src/Examples/Trips.antt =====
-- Bookings, Drivers and Journeys at concrete inputs.
use dazat_mobility.Base.{
  true, false, some, List, [], ◌∷◌, ◌≡◌, refl, Date, at, natural, includes, some_of, arith,
}
use dazat_mobility.Base.Texts.{units, trim, is_currency_code}
use dazat_mobility.Booking.Status.{
  BookingStatus, BookingStatus-discrete, quote_created, awaiting_confirmation, confirmed,
  ready_for_dispatch, searching_for_driver, driver_assigned, driver_en_route, driver_arrived,
  awaiting_ridecheck, passenger_verified, in_progress, completed, payment_processing, paid,
  can_use_canonical_forward_transition,
}
use dazat_mobility.Booking.Chains.{chain_ok, in_progress_needs_ridecheck, paid_needs_completion}
use dazat_mobility.Dispatch.Availability.{DriverAvailabilityStatus, available, assigned, eligible}
use dazat_mobility.Dispatch.Availability.Traces.{
  Request, move, release, break_off, changes, stays_assigned,
}
use dazat_mobility.Dispatch.Eligibility.{
  DriverDispatchEligibilityInput, evaluate_driver_dispatch_eligibility, eligibility_rows,
  is_location_fresh,
}
use dazat_mobility.Dispatch.Eligibility.Laws.{MayBeOffered, eligible_iff}
use dazat_mobility.Journey.Status.{JourneyStatus}
use dazat_mobility.Journey.Location.{
  MathOps, LocationObservationInput, LocationEvidencePolicy, Place, distance_metres,
  degrees_to_radians, evaluate_location_evidence, evaluate_arrival_evidence,
}
use dazat_mobility.Journey.RideCheck.{
  RideCheckStatus, RideCheckAttempt, JourneyStartInput, can_start_journey,
  evaluate_ride_check_attempt,
}
use dazat_mobility.Journey.Live.{CompletionDecisionInput, evaluate_journey_completion}
use dazat_mobility.Journey.Laws.{
  IsUsable, usable_iff, MayComplete, allowed_iff, start_needs_match, is_match, IsChecked,
  attempt-IsChecked,
}
use dazat_mobility.Pricing.{is_quote_usable}
use dazat_mobility.CoreJourney.Slice.{CoreJourneyInput, run_provider_disabled_core_journey}
use dazat_mobility.CoreJourney.Laws.{Returns, IsOutcome, run-IsOutcome}

abbrev spine_to_progress : List BookingStatus
spine_to_progress =
    quote_created ∷ awaiting_confirmation ∷ confirmed ∷ ready_for_dispatch ∷ searching_for_driver
    ∷ driver_assigned ∷ driver_en_route ∷ driver_arrived ∷ awaiting_ridecheck ∷ passenger_verified
    ∷ in_progress ∷ []

abbrev spine_to_paid : List BookingStatus
spine_to_paid =
    quote_created ∷ awaiting_confirmation ∷ confirmed ∷ ready_for_dispatch ∷ searching_for_driver
    ∷ driver_assigned ∷ driver_en_route ∷ driver_arrived ∷ awaiting_ridecheck ∷ passenger_verified
    ∷ in_progress ∷ BookingStatus.arriving ∷ completed ∷ payment_processing ∷ paid ∷ []

in_progress_needs_ridecheck_example :
    (includes BookingStatus-discrete spine_to_progress passenger_verified ≡ true)
    × (includes BookingStatus-discrete spine_to_progress awaiting_ridecheck ≡ true)
    × (includes BookingStatus-discrete spine_to_progress driver_arrived ≡ true)
    × (includes BookingStatus-discrete spine_to_progress driver_assigned ≡ true)
    × (includes BookingStatus-discrete spine_to_progress searching_for_driver ≡ true)
unfolding chain_ok can_use_canonical_forward_transition
in_progress_needs_ridecheck_example = in_progress_needs_ridecheck spine_to_progress refl refl

paid_needs_completion_example :
    (includes BookingStatus-discrete spine_to_paid payment_processing ≡ true)
    × (includes BookingStatus-discrete spine_to_paid completed ≡ true)
    × (includes BookingStatus-discrete spine_to_paid in_progress ≡ true)
    × (includes BookingStatus-discrete spine_to_paid passenger_verified ≡ true)
unfolding chain_ok can_use_canonical_forward_transition
paid_needs_completion_example = paid_needs_completion spine_to_paid refl refl

abbrev requests : List Request
requests =
    move available
    ∷ release available true false
    ∷ break_off true true false
    ∷ release DriverAvailabilityStatus.offline false true
    ∷ []

stays_assigned_example : changes assigned requests ≡ assigned
stays_assigned_example = stays_assigned requests refl

-- Ten minutes after the origin of the time scale.
abbrev noon : Date
noon = at 600_000

abbrev driver : DriverDispatchEligibilityInput
driver = record {
  account_active = true;
  driver_profile_approved = true;
  compliance_status = some eligible;
  compliance_valid_until = some (at 900_000);
  vehicle_authorised = true;
  vehicle_status = some eligible;
  vehicle_valid_until = some (at 900_000);
  service_permission_match = true;
  operating_restriction_active = false;
  availability_status = available;
  location_observed_at = some (at 590_000);
  location_confidence = some (natural 1);
  minimum_location_confidence = natural 0;
  max_location_age_seconds = natural 30;
  has_active_assignment = false;
  has_schedule_conflict = false;
  fatigue_safety_passed = true;
  hard_requirements_match = true;
}

eligible_iff_example : MayBeOffered driver noon
unfolding evaluate_driver_dispatch_eligibility eligibility_rows is_location_fresh
eligible_iff_example = (eligible_iff driver noon).0 refl

-- An arithmetic on which every two places are at no distance.
abbrev flat : MathOps
flat = record {
  pi = natural 3;
  add = λ a b. b;
  sub = λ a b. a;
  mul = λ a b. b;
  div = λ a b. a;
  sin = λ a. natural 0;
  cos = λ a. natural 1;
  sqrt = λ a. a;
  atan2 = λ a b. natural 0;
  pow = λ a b. a;
}

abbrev place : Place
place = record { latitude = natural 6; longitude = natural 3 }

abbrev observation : LocationObservationInput
observation = record {
  latitude = natural 6;
  longitude = natural 3;
  observed_at = at 590_000;
  received_at = at 595_000;
  accuracy_metres = natural 5;
  confidence = natural 1;
}

abbrev later_observation : LocationObservationInput
later_observation = record observation { observed_at = at 600_000; received_at = at 601_000 }

abbrev location_policy : LocationEvidencePolicy
location_policy = record {
  max_age_seconds = natural 30;
  maximum_future_skew_seconds = natural 2;
  maximum_accuracy_metres = natural 50;
  minimum_confidence = natural 0;
}

usable_iff_example : IsUsable observation location_policy
unfolding evaluate_location_evidence
usable_iff_example = (usable_iff observation location_policy).0 refl

abbrev completion : CompletionDecisionInput
completion = record {
  journey_status = JourneyStatus.arriving;
  booking_status = BookingStatus.arriving;
  assignment_active = true;
  destination_evidence_accepted = true;
  active_completion_hold = false;
  continuity_case_open = false;
  handover_required = true;
  authorised_handover_recorded = true;
  handover_failure_open = false;
}

allowed_iff_example : MayComplete completion
unfolding evaluate_journey_completion
allowed_iff_example = (allowed_iff completion).0 refl

abbrev start : JourneyStartInput
start = record {
  journey_status = JourneyStatus.passenger_verified;
  ride_check_status = some RideCheckStatus.verified;
  assignment_active = true;
  assignment_still_eligible = true;
  active_operational_hold = false;
  pickup_evidence_accepted = true;
}

abbrev second_attempt : RideCheckAttempt
second_attempt = record {
  status = RideCheckStatus.pending;
  verifier_matches = true;
  attempts_used = 1;
  maximum_attempts = 3;
  expires_at = at 700_000;
  now = noon;
}

attempt-IsChecked_example : IsChecked second_attempt (evaluate_ride_check_attempt second_attempt)
attempt-IsChecked_example = attempt-IsChecked second_attempt

-- A mismatch, and then the verifier of the passenger.
abbrev attempts : List RideCheckAttempt
attempts =
    record second_attempt { verifier_matches = false; attempts_used = 0 } ∷ second_attempt ∷ []

start_needs_match_example : some_of is_match attempts ≡ true
unfolding can_start_journey evaluate_ride_check_attempt
start_needs_match_example =
    start_needs_match start RideCheckStatus.pending attempts (ground arith) refl refl

abbrev core_journey : CoreJourneyInput
core_journey = record {
  now = noon;
  amount_minor = natural 2_500;
  currency = units " NGN";
  quote_expires_at = at 700_000;
  driver = driver;
  pickup = place;
  pickup_observation = observation;
  location_policy = location_policy;
  arrival_radius_metres = natural 100;
  verifier_matches = true;
  ride_check_expires_at = at 700_000;
  completion = completion;
}

run-IsOutcome_example :
    Returns (IsOutcome true) (run_provider_disabled_core_journey flat (λ s. s) core_journey)
unfolding evaluate_arrival_evidence evaluate_location_evidence distance_metres degrees_to_radians
    evaluate_journey_completion evaluate_ride_check_attempt evaluate_driver_dispatch_eligibility
    eligibility_rows is_location_fresh is_currency_code trim is_quote_usable
run-IsOutcome_example = run-IsOutcome flat core_journey (λ s. s) refl refl refl
