-- ===== src/Journey/Location.antt =====
-- packages/domain/src/journey.ts: the evidence of a location, distances and the arrival at pickup.
use dazat_mobility.Base.{
  Bool, ◌&&◌, ◌||◌, not, List, [], ◌∷◌, is_empty, collect, Date, seconds_between, Number, natural,
  less, less_eq, is_finite, negate, half, if◌then◌else◌,
}

-- The arithmetic of JavaScript numbers and its `Math` object, which are not in the repository.
pub record MathOps : Type 0 where
  pub pi : Number
  pub add : Number → Number → Number
  pub sub : Number → Number → Number
  pub mul : Number → Number → Number
  pub div : Number → Number → Number
  pub sin : Number → Number
  pub cos : Number → Number
  pub sqrt : Number → Number
  pub atan2 : Number → Number → Number
  pub pow : Number → Number → Number

pub data TelemetryConfidenceState : Type 0 where
  live delayed degraded stale unknown : TelemetryConfidenceState

pub record LocationObservationInput : Type 0 where
  pub latitude : Number
  pub longitude : Number
  pub observed_at : Date
  pub received_at : Date
  pub accuracy_metres : Number
  pub confidence : Number

pub record LocationEvidencePolicy : Type 0 where
  pub max_age_seconds : Number
  pub maximum_future_skew_seconds : Number
  pub maximum_accuracy_metres : Number
  pub minimum_confidence : Number

pub data LocationBlocker : Type 0 where
  location_in_future location_stale location_accuracy_low : LocationBlocker
  location_confidence_low : LocationBlocker

pub record LocationEvidenceDecision : Type 0 where
  pub usable : Bool
  pub state : TelemetryConfidenceState
  pub blockers : List LocationBlocker
  pub age_seconds : Number

abbrev in_future : LocationEvidencePolicy → Number → Bool
in_future p age = less age (negate p.maximum_future_skew_seconds)

abbrev too_old : LocationEvidencePolicy → Number → Bool
too_old p age = less p.max_age_seconds age

abbrev inaccurate : LocationEvidencePolicy → Number → Bool
inaccurate p accuracy =
    not (is_finite accuracy) || less accuracy (natural 0) || less p.maximum_accuracy_metres accuracy

abbrev pub unsure : LocationEvidencePolicy → Number → Bool
unsure p confidence =
    not (is_finite confidence)
    || less confidence p.minimum_confidence
    || less (natural 1) confidence

abbrev pub location_rows :
    LocationObservationInput → LocationEvidencePolicy → Number → List (Bool × LocationBlocker)
location_rows o p age =
    (in_future p age, location_in_future)
    ∷ (too_old p age, location_stale)
    ∷ (inaccurate p o.accuracy_metres, location_accuracy_low)
    ∷ (unsure p o.confidence, location_confidence_low)
    ∷ []

-- The tests on `blockers.includes` are the tests that pushed the blocker.
unfoldable pub evaluate_location_evidence :
    LocationObservationInput → LocationEvidencePolicy → LocationEvidenceDecision
evaluate_location_evidence o p =
    let age = seconds_between o.received_at o.observed_at in
    let blockers : List LocationBlocker = collect (location_rows o p age) in
    record {
      usable = is_empty blockers;
      state =
          if in_future p age || too_old p age
          then stale
          else if not (is_empty blockers)
          then degraded
          else if less (half p.max_age_seconds) age
          then delayed
          else live;
      blockers = blockers;
      age_seconds = age;
    }

pub record Place : Type 0 where
  pub latitude : Number
  pub longitude : Number

unfoldable pub degrees_to_radians : MathOps → Number → Number
degrees_to_radians m value = m.div (m.mul value m.pi) (natural 180)

abbrev square : MathOps → Number → Number
square m x = m.pow x (natural 2)

unfoldable pub distance_metres : MathOps → Place → Place → Number
unfolding degrees_to_radians
distance_metres m from to =
    let latitude_delta = degrees_to_radians m (m.sub to.latitude from.latitude) in
    let longitude_delta = degrees_to_radians m (m.sub to.longitude from.longitude) in
    let from_latitude = degrees_to_radians m from.latitude in
    let to_latitude = degrees_to_radians m to.latitude in
    let a = m.add (square m (m.sin (m.div latitude_delta (natural 2)))) (
      m.mul (m.mul (m.cos from_latitude) (m.cos to_latitude))
        (square m (m.sin (m.div longitude_delta (natural 2))))) in
    m.mul (m.mul (natural 6_371_000) (natural 2))
      (m.atan2 (m.sqrt a) (m.sqrt (m.sub (natural 1) a)))

-- The place of an observation.
abbrev pub place_of : LocationObservationInput → Place
place_of o = record { latitude = o.latitude; longitude = o.longitude }

pub record ArrivalEvidenceDecision : Type 0 where
  pub location : LocationEvidenceDecision
  pub distance_metres : Number
  pub within_arrival_radius : Bool
  pub accepted : Bool

unfoldable pub evaluate_arrival_evidence :
    MathOps
    → LocationObservationInput
    → Place
    → LocationEvidencePolicy
    → Number
    → ArrivalEvidenceDecision
evaluate_arrival_evidence m o pickup p arrival_radius_metres =
    let location = evaluate_location_evidence o p in
    let distance = distance_metres m (place_of o) pickup in
    let within = less_eq distance arrival_radius_metres in
    record {
      location = location;
      distance_metres = distance;
      within_arrival_radius = within;
      accepted = location.usable && within;
    }
