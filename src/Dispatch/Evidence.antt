-- ===== src/Dispatch/Evidence.antt =====
-- services/api/src/modules/dispatch/dispatch-service.ts: the tests that the hard
-- filters of Dispatch make before the decision: requirements against capabilities, the services that
-- need a permission, maintenance and fatigue.
use dazat_mobility.Base.{
  ℕ, Bool, true, false, ◌&&◌, ◌||◌, not, Option, none, some, List, [], ◌∷◌, map, if◌then◌else◌,
  every, some_of, is_empty, Date, Number, less_eq,
}
use dazat_mobility.Base.Texts.{Text, units, text_eq, trim, contains_text, member, sort_texts}
use dazat_mobility.Base.Results.{Result, ok, err, ◌>>=◌}
use dazat_mobility.Driver.Fatigue.{
  FatiguePolicy, FatigueError, DriverFatigueSafetyInput, evaluate_driver_fatigue_safety,
}
use dazat_mobility.Dispatch.Market.{DispatchError, fatigue_failed}

-- A value of a JSON object: two objects or arrays that were parsed apart are never `===`.
pub data Value : Type 0 where
  null nested : Value
  boolean : Bool → Value
  number : Number → Value
  text : Text → Value

-- a === b
abbrev identical : Value → Value → Bool
identical null null = true
identical (boolean a) (boolean b) = if a then b else not b
identical (number a) (number b) = less_eq a b && less_eq b a
identical (text a) (text b) = text_eq a b
identical _ _ = false

-- A capability of a vehicle: an object or an array by its own properties, or another value.
pub data Capability : Type 0 where
  object : List (Text × Value) → Capability
  plain : Value → Capability

pub record DispatchRequirement : Type 0 where
  pub requirement_type : Text
  pub value : List (Text × Value)

-- object[key], where it is present.
abbrev property {ℓ} : {A : Type ℓ} → Text → List (Text × A) → Option A
property key [] = none
property key ((name, value) ∷ rest) =
    let more = property key rest in if text_eq name key then some value else more

abbrev agrees : Option Value → Value → Bool
agrees none expected = false
agrees (some actual) expected = identical actual expected

-- The value of a requirement is an object, so that a capability that is none can only be `true`.
abbrev capability_matches : List (Text × Value) → Option Capability → Bool
capability_matches value none = false
capability_matches value (some (plain actual)) = identical actual (boolean true)
capability_matches value (some (object entries)) =
    every (λ e. agrees (property e.0 entries) e.1) value

unfoldable pub hard_requirements_match : List DispatchRequirement → List (Text × Capability) → Bool
hard_requirements_match requirements capabilities =
    every (λ r. capability_matches r.value (property r.requirement_type capabilities)) requirements

-- The codes in the order of the source; `upper` is toUpperCase.
abbrev service_tests : List Text → List (Bool × Text)
service_tests types =
    (some_of (contains_text (units "SCHOOL")) types, units "SCHOOL")
    ∷ (
      some_of (λ t. contains_text (units "WAV") t || contains_text (units "WHEELCHAIR") t) types,
      units "WAV",
    )
    ∷ (some_of (contains_text (units "HOSPITAL")) types, units "HOSPITAL")
    ∷ (
      some_of (λ t. contains_text (units "SPECIALIST") t || contains_text (units "HANDOVER") t)
          types,
      units "SPECIALIST",
    )
    ∷ []

abbrev pub chosen : List (Bool × Text) → List Text
chosen [] = []
chosen ((test, code) ∷ rest) = let more = chosen rest in if test then code ∷ more else more

unfoldable pub required_permission_service_codes :
    (Text → Text) → List DispatchRequirement → List Text
unfolding trim contains_text sort_texts
required_permission_service_codes upper requirements =
    let services =
      chosen (service_tests (map (λ r. upper (trim r.requirement_type)) requirements)) in
    sort_texts (if is_empty services then units "STANDARD" ∷ [] else services)

unfoldable pub maintenance_permits_services : Option Bool → Option (List Text) → List Text → Bool
unfolding member
maintenance_permits_services (some true) (some restricted) requested =
    not (some_of (λ code. member code restricted) requested)
maintenance_permits_services (some true) none requested = true
maintenance_permits_services _ _ requested = false

-- The configuration that Dispatch reads.
pub record DispatchConfig : Type 0 where
  pub minimum_location_confidence : Number
  pub location_max_age_seconds : Number
  pub fatigue_policy : FatiguePolicy
  pub offer_wave_size : ℕ
  pub offer_ttl_seconds : ℕ
  pub development_pickup_eta_minutes : Option Number
  pub development_earning_amount_minor : Option Number
  pub development_earning_currency : Option Text

-- driver.current_fatigue_safety_projection; a Driver without a row has no times and no signal.
pub record FatigueRow : Type 0 where
  pub shift_started_at : Option Date
  pub last_qualifying_rest_started_at : Option Date
  pub last_qualifying_rest_ended_at : Option Date
  pub driver_reported_fatigue : Bool
  pub drowsiness_signal_observed : Bool

abbrev fatigue_input : FatigueRow → DispatchConfig → Date → DriverFatigueSafetyInput
fatigue_input row config now = record {
  shift_started_at = row.shift_started_at;
  last_qualifying_rest_started_at = row.last_qualifying_rest_started_at;
  last_qualifying_rest_ended_at = row.last_qualifying_rest_ended_at;
  now = now;
  active_journey = false;
  driver_reported_fatigue = row.driver_reported_fatigue;
  drowsiness_signal_observed = row.drowsiness_signal_observed;
  policy = config.fatigue_policy;
}

-- A thrown fatigue error is thrown on.
abbrev thrown_on : {A : Type 0} → Result FatigueError A → Result DispatchError A
thrown_on (err e) = err (fatigue_failed e)
thrown_on (ok a) = ok a

unfoldable pub fatigue_safety_passed :
    FatigueRow → DispatchConfig → Date → Result DispatchError Bool
unfolding evaluate_driver_fatigue_safety
fatigue_safety_passed row config now = do
  decision ← thrown_on (evaluate_driver_fatigue_safety (fatigue_input row config now))
  ok (decision.new_offers_allowed && decision.new_journey_start_allowed)
