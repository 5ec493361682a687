-- ===== src/Driver/Fatigue.antt =====
-- packages/domain/src/driver-daily-operations.ts: the fatigue decision.
pub mod DutyStart
pub mod Laws
use dazat_mobility.Base.{
  ℕ, Bool, true, false, ◌&&◌, ◌||◌, not, Option, none, some, List, [], ◌∷◌, collect, Date, invalid,
  at, before, minutes_between, Number, natural, less, less_eq, is_safe_integer, if◌then◌else◌,
}
use dazat_mobility.Base.Results.{Result, ok, err, require, ◌>>=◌, ◌>>◌}

pub data DriverFatigueSafetyState : Type 0 where
  clear warning rest_required active_journey_handover_required : DriverFatigueSafetyState

pub record FatiguePolicy : Type 0 where
  pub warning_after_duty_minutes : Number
  pub rest_required_after_duty_minutes : Number
  pub minimum_qualifying_rest_minutes : Number

pub record DriverFatigueSafetyInput : Type 0 where
  pub shift_started_at : Option Date
  pub last_qualifying_rest_started_at : Option Date
  pub last_qualifying_rest_ended_at : Option Date
  pub now : Date
  pub active_journey : Bool
  pub driver_reported_fatigue : Bool
  pub drowsiness_signal_observed : Bool
  pub policy : FatiguePolicy

pub data FatigueBlocker : Type 0 where
  duty_time_evidence_missing driver_reported_fatigue : FatigueBlocker
  drowsiness_signal_observed duty_limit_reached : FatigueBlocker

pub record DriverFatigueSafetyDecision : Type 0 where
  pub state : DriverFatigueSafetyState
  pub observed_duty_minutes : Option Number
  pub new_offers_allowed : Bool
  pub new_journey_start_allowed : Bool
  pub break_prompt_required : Bool
  pub control_room_escalation_required : Bool
  pub active_passenger_continuity_required : Bool
  pub driver_fault_finding_created : Bool
  pub blockers : List FatigueBlocker

pub data FatigueError : Type 0 where
  policy_not_ordered assessment_time_invalid rest_ends_before_start evidence_in_future :
      FatigueError

abbrev pub policy_ordered : FatiguePolicy → Bool
policy_ordered p =
    is_safe_integer p.warning_after_duty_minutes
    && less (natural 0) p.warning_after_duty_minutes
    && is_safe_integer p.rest_required_after_duty_minutes
    && less p.warning_after_duty_minutes p.rest_required_after_duty_minutes
    && is_safe_integer p.minimum_qualifying_rest_minutes
    && less (natural 0) p.minimum_qualifying_rest_minutes

abbrev pub is_valid : Date → Bool
is_valid invalid = false
is_valid (at _) = true

-- The minutes of the last rest, null where an end of it is missing.
abbrev pub rest_minutes : Option Date → Option Date → Option Number
rest_minutes (some started) (some ended) = some (minutes_between ended started)
rest_minutes _ _ = none

-- x !== null && x < 0
abbrev pub is_negative : Option Number → Bool
is_negative none = false
is_negative (some x) = less x (natural 0)

-- x !== null && x >= bound
abbrev pub at_least : Option Number → Number → Bool
at_least none bound = false
at_least (some x) bound = less_eq bound x

-- The start of the duty: the end of a qualifying rest after the start of the shift, or that start.
abbrev pub later_start : Option Date → Option Date → Option Date
later_start (some rest) (some shift) = if before shift rest then some rest else some shift
later_start _ shift = shift

abbrev pub effective_start : DriverFatigueSafetyInput → Option Date
effective_start i =
    later_start
      (if at_least (rest_minutes i.last_qualifying_rest_started_at i.last_qualifying_rest_ended_at)
          i.policy.minimum_qualifying_rest_minutes
        then i.last_qualifying_rest_ended_at
        else none)
      i.shift_started_at

abbrev pub duty_minutes : Date → Option Date → Option Number
duty_minutes now none = none
duty_minutes now (some start) = some (minutes_between now start)

abbrev pub is_missing : Option Number → Bool
is_missing none = true
is_missing (some _) = false

-- The decision from the observed duty.
unfoldable pub decide_fatigue :
    DriverFatigueSafetyInput → Option Number → DriverFatigueSafetyDecision
decide_fatigue i observed =
    let missing = is_missing observed in
    let limit_reached = at_least observed i.policy.rest_required_after_duty_minutes in
    let required =
      missing || i.driver_reported_fatigue || i.drowsiness_signal_observed || limit_reached in
    let warned = not required && at_least observed i.policy.warning_after_duty_minutes in
    let handover = required && i.active_journey in
    record {
      state =
          if required
          then (if i.active_journey then active_journey_handover_required else rest_required)
          else if warned
          then warning
          else clear;
      observed_duty_minutes = observed;
      new_offers_allowed = not required;
      new_journey_start_allowed = not required;
      break_prompt_required = warned || required;
      control_room_escalation_required = handover;
      active_passenger_continuity_required = handover;
      driver_fault_finding_created = false;
      blockers = collect (
          (missing, duty_time_evidence_missing)
          ∷ (i.driver_reported_fatigue, driver_reported_fatigue)
          ∷ (i.drowsiness_signal_observed, drowsiness_signal_observed)
          ∷ (limit_reached, duty_limit_reached)
          ∷ []);
    }

unfoldable pub evaluate_driver_fatigue_safety :
    DriverFatigueSafetyInput → Result FatigueError DriverFatigueSafetyDecision
evaluate_driver_fatigue_safety i = do
  require (policy_ordered i.policy) policy_not_ordered
  require (is_valid i.now) assessment_time_invalid
  require
      (not (
        is_negative
          (rest_minutes i.last_qualifying_rest_started_at i.last_qualifying_rest_ended_at)))
      rest_ends_before_start
  let observed = duty_minutes i.now (effective_start i)
  require (not (is_negative observed)) evidence_in_future
  ok (decide_fatigue i observed)
