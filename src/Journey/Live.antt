-- ===== src/Journey/Live.antt =====
-- packages/domain/src/live-journey.ts: safety signals, plausible movement, the evidence at the
-- destination and the governed completion of a Journey.
use dazat_mobility.Base.{
  Bool, true, false, ◌&&◌, ◌||◌, not, Option, none, some, List, [], ◌∷◌, ◌++◌, map, is_empty,
  collect, seconds_between, Number, natural, less, less_eq, if◌then◌else◌,
}
use dazat_mobility.Booking.Status.{BookingStatus}
use dazat_mobility.Journey.Status.{JourneyStatus}
use dazat_mobility.Journey.Location.{
  MathOps, LocationObservationInput, LocationEvidencePolicy, LocationBlocker, Place, place_of,
  distance_metres, evaluate_location_evidence,
}

pub data JourneyHealthState : Type 0 where
  normal attention at_risk incident : JourneyHealthState

pub data SafetySignalType : Type 0 where
  sos silent_assistance route_concern : SafetySignalType

unfoldable health_for_safety_signal : SafetySignalType → JourneyHealthState
health_for_safety_signal sos = incident
health_for_safety_signal silent_assistance = at_risk
health_for_safety_signal route_concern = attention

pub data MovementBlocker : Type 0 where
  out_of_order_location impossible_jump : MovementBlocker

pub record MovementPlausibilityDecision : Type 0 where
  pub plausible : Bool
  pub distance_metres : Number
  pub elapsed_seconds : Number
  pub implied_speed_metres_per_second : Option Number
  pub blocker : Option MovementBlocker

unfoldable pub evaluate_movement_plausibility :
    MathOps
    → LocationObservationInput
    → LocationObservationInput
    → Number
    → MovementPlausibilityDecision
evaluate_movement_plausibility m previous next maximum_speed =
    let elapsed = seconds_between next.observed_at previous.observed_at in
    let travelled = distance_metres m (place_of previous) (place_of next) in
    let speed = m.div travelled elapsed in
    if less_eq elapsed (natural 0)
    then record {
      plausible = false;
      distance_metres = travelled;
      elapsed_seconds = elapsed;
      implied_speed_metres_per_second = none;
      blocker = some out_of_order_location;
    }
    else if less maximum_speed speed
    then record {
      plausible = false;
      distance_metres = travelled;
      elapsed_seconds = elapsed;
      implied_speed_metres_per_second = some speed;
      blocker = some impossible_jump;
    }
    else record {
      plausible = true;
      distance_metres = travelled;
      elapsed_seconds = elapsed;
      implied_speed_metres_per_second = some speed;
      blocker = none;
    }

pub data DestinationBlocker : Type 0 where
  location : LocationBlocker → DestinationBlocker
  outside_destination_radius : DestinationBlocker

pub record DestinationEvidenceDecision : Type 0 where
  pub accepted : Bool
  pub distance_metres : Number
  pub within_radius : Bool
  pub telemetry_usable : Bool
  pub blockers : List DestinationBlocker

unfoldable pub evaluate_destination_evidence :
    MathOps
    → LocationObservationInput
    → Place
    → LocationEvidencePolicy
    → Number
    → DestinationEvidenceDecision
evaluate_destination_evidence m o destination p destination_radius_metres =
    let telemetry = evaluate_location_evidence o p in
    let distance = distance_metres m (place_of o) destination in
    let within = less_eq distance destination_radius_metres in
    record {
      accepted = telemetry.usable && within;
      distance_metres = distance;
      within_radius = within;
      telemetry_usable = telemetry.usable;
      blockers =
          map location telemetry.blockers
          ++ (if within then [] else outside_destination_radius ∷ []);
    }

-- The statuses reach this function as texts; only the comparison with ARRIVING is made.
pub record CompletionDecisionInput : Type 0 where
  pub journey_status : JourneyStatus
  pub booking_status : BookingStatus
  pub assignment_active : Bool
  pub destination_evidence_accepted : Bool
  pub active_completion_hold : Bool
  pub continuity_case_open : Bool
  pub handover_required : Bool
  pub authorised_handover_recorded : Bool
  pub handover_failure_open : Bool

pub data CompletionBlocker : Type 0 where
  not_arriving assignment_not_active destination_evidence_rejected : CompletionBlocker
  active_completion_hold continuity_case_open handover_required : CompletionBlocker
  handover_failure_open : CompletionBlocker

pub record CompletionDecision : Type 0 where
  pub allowed : Bool
  pub blockers : List CompletionBlocker

abbrev journey_is_arriving : JourneyStatus → Bool
journey_is_arriving JourneyStatus.arriving = true
journey_is_arriving _ = false

abbrev booking_is_arriving : BookingStatus → Bool
booking_is_arriving BookingStatus.arriving = true
booking_is_arriving _ = false

unfoldable pub evaluate_journey_completion : CompletionDecisionInput → CompletionDecision
evaluate_journey_completion i =
    let blockers : List CompletionBlocker = collect (
      (
        not (journey_is_arriving i.journey_status) || not (booking_is_arriving i.booking_status),
        not_arriving,
      )
      ∷ (not i.assignment_active, assignment_not_active)
      ∷ (not i.destination_evidence_accepted, destination_evidence_rejected)
      ∷ (i.active_completion_hold, active_completion_hold)
      ∷ (i.continuity_case_open, continuity_case_open)
      ∷ (i.handover_failure_open, handover_failure_open)
      ∷ (i.handover_required && not i.authorised_handover_recorded, handover_required)
      ∷ []) in
    record { allowed = is_empty blockers; blockers = blockers }

pub data RouteConcernCategory : Type 0 where
  check_route wrong_destination feel_unsafe unexpected_stop other : RouteConcernCategory

pub data RouteDeviationSeverity : Type 0 where
  minor moderate significant critical : RouteDeviationSeverity

unfoldable route_concern_severity : RouteConcernCategory → RouteDeviationSeverity
route_concern_severity feel_unsafe = critical
route_concern_severity wrong_destination = significant
route_concern_severity unexpected_stop = significant
route_concern_severity _ = moderate
