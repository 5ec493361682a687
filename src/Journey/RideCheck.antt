-- ===== src/Journey/RideCheck.antt =====
-- packages/domain/src/journey.ts: an attempt at the RideCheck, and the start of a Journey.
use dazat_mobility.Base.{
  ℕ, ◌-◌, Bool, true, false, ◌&&◌, not, Option, some, Date, not_after, ◌==◌, if◌then◌else◌,
}
use dazat_mobility.Journey.Status.{JourneyStatus, passenger_verified}

pub data RideCheckStatus : Type 0 where
  pending verified locked expired superseded : RideCheckStatus

pub data AttemptReason : Type 0 where
  verified mismatch attempts_exhausted expired not_pending : AttemptReason

pub record RideCheckAttempt : Type 0 where
  pub status : RideCheckStatus
  pub verifier_matches : Bool
  pub attempts_used : ℕ
  pub maximum_attempts : ℕ
  pub expires_at : Date
  pub now : Date

pub record RideCheckAttemptDecision : Type 0 where
  pub accepted : Bool
  pub next_status : RideCheckStatus
  pub attempts_remaining : ℕ
  pub reason : AttemptReason

abbrev is_pending : RideCheckStatus → Bool
is_pending pending = true
is_pending _ = false

-- `Math.max(0, a - b)` is the truncated difference; the attempt counters are natural numbers.
unfoldable pub evaluate_ride_check_attempt : RideCheckAttempt → RideCheckAttemptDecision
evaluate_ride_check_attempt i =
    let remaining = i.maximum_attempts - i.attempts_used in
    if not (is_pending i.status)
    then record {
      accepted = false;
      next_status = i.status;
      attempts_remaining = remaining;
      reason = not_pending;
    }
    else if not_after i.expires_at i.now
    then record {
      accepted = false;
      next_status = RideCheckStatus.expired;
      attempts_remaining = remaining;
      reason = AttemptReason.expired;
    }
    else if i.verifier_matches
    then record {
      accepted = true;
      next_status = RideCheckStatus.verified;
      attempts_remaining = remaining - 1;
      reason = AttemptReason.verified;
    }
    else if i.maximum_attempts - i.attempts_used - 1 == 0
    then record {
      accepted = false;
      next_status = locked;
      attempts_remaining = 0;
      reason = attempts_exhausted;
    }
    else record {
      accepted = false;
      next_status = pending;
      attempts_remaining = i.maximum_attempts - i.attempts_used - 1;
      reason = mismatch;
    }

pub record JourneyStartInput : Type 0 where
  pub journey_status : JourneyStatus
  pub ride_check_status : Option RideCheckStatus
  pub assignment_active : Bool
  pub assignment_still_eligible : Bool
  pub active_operational_hold : Bool
  pub pickup_evidence_accepted : Bool

abbrev is_passenger_verified : JourneyStatus → Bool
is_passenger_verified passenger_verified = true
is_passenger_verified _ = false

abbrev is_verified : Option RideCheckStatus → Bool
is_verified (some RideCheckStatus.verified) = true
is_verified _ = false

unfoldable pub can_start_journey : JourneyStartInput → Bool
can_start_journey i =
    is_passenger_verified i.journey_status
    && is_verified i.ride_check_status
    && i.assignment_active
    && i.assignment_still_eligible
    && not i.active_operational_hold
    && i.pickup_evidence_accepted
