-- ===== src/Dispatch/Candidates.antt =====
-- services/api/src/modules/dispatch/dispatch-service.ts: the candidates of startBookingDispatch and the
-- offers of its wave.
use dazat_mobility.Base.{
  ℕ, zero, suc, ◌+◌, ◌*◌, Bool, true, false, ◌&&◌, not, Option, none, some, List, [], ◌∷◌, map,
  if◌then◌else◌, keep, is_empty, Date, invalid, at, Number,
}
use dazat_mobility.Base.Texts.{Text, units, text_eq, trim}
use dazat_mobility.Base.Results.{Result, ok, ◌>>=◌}
use dazat_mobility.Booking.Store.{Location}
use dazat_mobility.Driver.Daily.{DriverOfferDisclosureInput, evaluate_driver_offer_disclosure}
use dazat_mobility.Dispatch.Availability.{
  DriverAvailabilityStatus, available, finishing_soon, DriverOfferStatus,
}
use dazat_mobility.Dispatch.Eligibility.{is_missing, evaluate_driver_dispatch_eligibility}
use dazat_mobility.Dispatch.Market.{
  OfferRow, AvailabilityRow, StartDispatchResult, dispatch_started, DispatchCommandRow, Market,
  DispatchError,
}
use dazat_mobility.Dispatch.Evidence.{required_permission_service_codes, fatigue_safety_passed}
use dazat_mobility.Dispatch.Registry.{DriverFile, EligibilityQuery}
use dazat_mobility.Dispatch.Lookup.{decision_input}
use dazat_mobility.Dispatch.Steps.{BookingDispatchContext, World}
use dazat_mobility.Dispatch.Offers.{is_command}

-- PostGIS: the rows in the order of their distance from a place, and that distance.
pub record Geography : Type 0 where
  pub nearest_first : Location → List AvailabilityRow → List AvailabilityRow
  pub distance : Location → AvailabilityRow → Option Number

unfoldable pub started_before : List DispatchCommandRow → ℕ → Text → Option StartDispatchResult
unfolding text_eq
started_before [] account key = none
started_before (c ∷ rows) account key =
    let rest = started_before rows account key in
    elim c.response [
      | dispatch_started r ↦ if is_command key account c then some r else rest
      | _ ↦ rest
    ]

abbrev takes_offers : DriverAvailabilityStatus → Bool
takes_offers available = true
takes_offers finishing_soon = true
takes_offers _ = false

abbrev in_region : Text → Option Text → Bool
in_region region none = false
in_region region (some r) = text_eq r region

-- The WHERE of the selection; a location is stored with the time at which it was observed.
abbrev is_candidate : Text → AvailabilityRow → Bool
is_candidate region r =
    in_region region r.region_code
    && (takes_offers r.status && not (is_missing r.location_observed_at))

-- A row of the selection: the JOIN finds the Driver, and a row that is not OFFLINE has a vehicle.
pub record Candidate : Type 0 where
  pub driver_id : ℕ
  pub vehicle_id : ℕ
  pub file : DriverFile
  pub distance : Option Number

abbrev candidate_of :
    AvailabilityRow → Option ℕ → Option DriverFile → Option Number → List Candidate → List Candidate
candidate_of row (some vehicle) (some file) distance rest =
    record { driver_id = row.driver_id; vehicle_id = vehicle; file = file; distance = distance }
    ∷ rest
candidate_of row _ _ distance rest = rest

abbrev candidates_of : World → Geography → Location → List AvailabilityRow → List Candidate
candidates_of world geography pickup [] = []
candidates_of world geography pickup (r ∷ rows) =
    candidate_of r r.vehicle_id (world.registry.drivers r.driver_id) (geography.distance pickup r)
      (candidates_of world geography pickup rows)

-- LIMIT n
abbrev pub first_n {ℓ} : {A : Type ℓ} → ℕ → List A → List A
first_n n [] = []
first_n zero (x ∷ xs) = []
first_n (suc n) (x ∷ xs) = x ∷ first_n n xs

unfoldable pub raw_candidates : World → Geography → BookingDispatchContext → Market → List Candidate
unfolding text_eq
raw_candidates world geography context m = first_n 200 (
    candidates_of world geography context.pickup (
      geography.nearest_first context.pickup
        (keep (is_candidate context.region_code) m.availability)))

abbrev candidate_query : World → BookingDispatchContext → Candidate → EligibilityQuery
candidate_query world context c = record {
  vehicle_id = some c.vehicle_id;
  region_code = some context.region_code;
  services = required_permission_service_codes world.upper context.requirements;
  service_at = some (elim context.scheduled_for [ none ↦ world.now | some d ↦ d ]);
  excluded_booking = some context.booking_id;
}

unfoldable is_eligible_candidate :
    World → BookingDispatchContext → Market → Candidate → Result DispatchError Bool
unfolding decision_input fatigue_safety_passed evaluate_driver_dispatch_eligibility
    required_permission_service_codes
is_eligible_candidate world context m c = do
  rested ← fatigue_safety_passed c.file.fatigue world.config world.now
  let decision =
      evaluate_driver_dispatch_eligibility
        (decision_input world.registry world.config m world.now c.driver_id c.file
          c.file.account_active (candidate_query world context c) context.requirements rested)
        world.now
  ok decision.eligible

-- rawCandidates.rows.filter(...), which throws what a test throws.
unfoldable pub eligible_candidates :
    World → BookingDispatchContext → Market → List Candidate → Result DispatchError (List Candidate)
unfolding is_eligible_candidate
eligible_candidates world context m [] = ok []
eligible_candidates world context m (c ∷ rows) = do
  passed ← is_eligible_candidate world context m c
  rest ← eligible_candidates world context m rows
  ok (if passed then c ∷ rest else rest)

abbrev schedule_label : Option Date → Text
schedule_label none = units "ON_DEMAND"
schedule_label (some d) = units "SCHEDULED"

abbrev pub journey_context_labels : World → BookingDispatchContext → List Text
journey_context_labels world context =
    schedule_label context.scheduled_for
    ∷ keep (λ t. not (is_empty t))
        (map (λ r. world.upper (trim r.requirement_type)) context.requirements)

abbrev pub is_set {ℓ} : {A : Type ℓ} → Option A → Bool
is_set none = false
is_set (some _) = true

abbrev when {ℓ} : {A : Type ℓ} → Bool → Option A → Option A
when test value = if test then value else none

-- The estimates are those of the development configuration, where both are set.
unfoldable disclosure_input :
    World → BookingDispatchContext → Candidate → DriverOfferDisclosureInput
unfolding required_permission_service_codes trim
disclosure_input world context c =
    let config = world.config in
    let enabled =
      is_set config.development_pickup_eta_minutes
      && is_set config.development_earning_amount_minor in
    record {
      pickup_distance_metres = c.distance;
      pickup_eta_minutes = when enabled config.development_pickup_eta_minutes;
      service_codes = required_permission_service_codes world.upper context.requirements;
      journey_context_labels = journey_context_labels world context;
      expected_earning_amount_minor = when enabled config.development_earning_amount_minor;
      expected_earning_currency = when enabled config.development_earning_currency;
      expected_earning_policy_version =
          when enabled (some (units "development-driver-earning-fixture-v1"));
      expected_earning_derived_from_rider_fare = false;
      ordinary_decline_penalty_applied = false;
    }

-- now + ttl seconds
abbrev pub expiry : World → Date
expiry world = elim world.now [
  | invalid ↦ invalid
  | at t ↦ at (t + world.config.offer_ttl_seconds * 1_000)
]

abbrev offer_for : World → BookingDispatchContext → ℕ → ℕ → Candidate → OfferRow
offer_for world context attempt offer c = record {
  id = offer;
  attempt_id = attempt;
  booking_id = context.booking_id;
  driver_id = c.driver_id;
  vehicle_id = c.vehicle_id;
  status = DriverOfferStatus.offered;
  expires_at = expiry world;
  reason = none;
  acceptance_allowed =
      some (evaluate_driver_offer_disclosure (disclosure_input world context c)).acceptance_allowed;
}

-- The offers of the wave, numbered from the first identifier.
unfoldable pub offer_wave : World → BookingDispatchContext → ℕ → ℕ → List Candidate → List OfferRow
unfolding disclosure_input evaluate_driver_offer_disclosure
offer_wave world context attempt first [] = []
offer_wave world context attempt first (c ∷ rows) =
    offer_for world context attempt first c ∷ offer_wave world context attempt (suc first) rows
