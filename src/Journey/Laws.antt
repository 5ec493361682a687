-- ===== src/Journey/Laws.antt =====
-- What the Journey decisions of journey.ts and live-journey.ts accept.
use dazat_mobility.Base.{
  ◌+◌, Bool, true, false, ◌&&◌, ◌||◌, not, some, List, [], ◌∷◌, ◌≡◌, ◌≢◌, ◌↔◌, ◌⊎◌, ◌≤◌, ◌<◌, inl,
  inr, arith, All, collect-empty_iff, not_after, natural, less, is_finite, seconds_between, negate,
  some_of, Bool-cases,
}
use dazat_mobility.Booking.Status.{BookingStatus}
use dazat_mobility.Journey.Status.{JourneyStatus}
use dazat_mobility.Journey.Location.{
  LocationObservationInput, LocationEvidencePolicy, location_rows, evaluate_location_evidence,
}
use dazat_mobility.Journey.RideCheck.{
  RideCheckStatus, pending, locked, RideCheckAttempt, RideCheckAttemptDecision,
  evaluate_ride_check_attempt, JourneyStartInput, can_start_journey,
}
use dazat_mobility.Journey.Live.{CompletionDecisionInput, evaluate_journey_completion}

-- The conditions on an observation that can serve as evidence.
pub record IsUsable (o : LocationObservationInput) (p : LocationEvidencePolicy) : Type 0 where
  pub not_ahead :
      less (seconds_between o.received_at o.observed_at) (negate p.maximum_future_skew_seconds)
      ≡ false
  pub recent : less p.max_age_seconds (seconds_between o.received_at o.observed_at) ≡ false
  pub accuracy_finite : is_finite o.accuracy_metres ≡ true
  pub accuracy_not_negative : less o.accuracy_metres (natural 0) ≡ false
  pub accurate : less p.maximum_accuracy_metres o.accuracy_metres ≡ false
  pub confidence_finite : is_finite o.confidence ≡ true
  pub confident : less o.confidence p.minimum_confidence ≡ false
  pub confidence_at_most_one : less (natural 1) o.confidence ≡ false

-- The three tests on a measure, apart.
three : (a b c : Bool) → not a || b || c ≡ false → (a ≡ true) × (b ≡ false) × (c ≡ false)
three true b c h = ground arith
three false b c h = cc

module _ (o : LocationObservationInput) (p : LocationEvidencePolicy) where
  rows_to_usable :
      All (λ r. r.0 ≡ false) (location_rows o p (seconds_between o.received_at o.observed_at))
      → IsUsable o p
  rows_to_usable (ahead, (old, (rough, (weak, _)))) =
      let (a, b, c) = three _ _ _ rough in
      let (d, e, f) = three _ _ _ weak in
      record {
        not_ahead = ahead;
        recent = old;
        accuracy_finite = a;
        accuracy_not_negative = b;
        accurate = c;
        confidence_finite = d;
        confident = e;
        confidence_at_most_one = f;
      }

  usable_to_rows :
      IsUsable o p
      → All (λ r. r.0 ≡ false) (location_rows o p (seconds_between o.received_at o.observed_at))
  usable_to_rows u = (
    u.not_ahead,
    (
      u.recent,
      (
        simp (u.accuracy_finite, u.accuracy_not_negative, u.accurate),
        (simp (u.confidence_finite, u.confident, u.confidence_at_most_one), tt),
      ),
    ),
  )

  -- An observation is usable exactly when it is neither ahead of its receipt nor old, accurate and
  -- confident, within the bounds of the policy.
  pub usable_iff : ((evaluate_location_evidence o p).usable ≡ true) ↔ IsUsable o p
  unfolding evaluate_location_evidence
  usable_iff =
      let (to, from) =
        collect-empty_iff (location_rows o p (seconds_between o.received_at o.observed_at)) in
      (λ e. rows_to_usable (to e), λ u. from (usable_to_rows u))

-- The conditions of a governed completion.
pub record MayComplete (i : CompletionDecisionInput) : Type 0 where
  pub journey_arriving : i.journey_status ≡ JourneyStatus.arriving
  pub booking_arriving : i.booking_status ≡ BookingStatus.arriving
  pub assigned : i.assignment_active ≡ true
  pub at_destination : i.destination_evidence_accepted ≡ true
  pub no_hold : i.active_completion_hold ≡ false
  pub no_continuity_case : i.continuity_case_open ≡ false
  pub no_handover_failure : i.handover_failure_open ≡ false
  pub handed_over : (i.handover_required ≡ false) ⊎ (i.authorised_handover_recorded ≡ true)

-- A Journey may be completed exactly when all the conditions of a governed completion hold.
pub allowed_iff :
    (i : CompletionDecisionInput) → ((evaluate_journey_completion i).allowed ≡ true) ↔ MayComplete i
unfolding evaluate_journey_completion
allowed_iff i = ground arith

-- The decision on an attempt, by each status that a pending RideCheck can get.
pub record IsChecked (i : RideCheckAttempt) (d : RideCheckAttemptDecision) : Type 0 where
  pub accepted_iff : (d.accepted ≡ true) ↔ (
      (i.status ≡ pending) × (not_after i.expires_at i.now ≡ false) × (i.verifier_matches ≡ true))
  pub verifies :
      i.status ≡ pending → (d.next_status ≡ RideCheckStatus.verified) ↔ (d.accepted ≡ true)
  pub expires :
      i.status ≡ pending
      → (d.next_status ≡ RideCheckStatus.expired) ↔ (not_after i.expires_at i.now ≡ true)
  pub locks :
      i.status ≡ pending
      → (d.next_status ≡ locked) ↔ (
          (not_after i.expires_at i.now ≡ false)
          × (i.verifier_matches ≡ false)
          × (i.maximum_attempts ≤ i.attempts_used + 1))
  pub stays :
      i.status ≡ pending
      → (d.next_status ≡ pending) ↔ (
          (not_after i.expires_at i.now ≡ false)
          × (i.verifier_matches ≡ false)
          × (i.attempts_used + 1 < i.maximum_attempts))
  pub settled : i.status ≢ pending → d.next_status ≡ i.status

-- An attempt at the RideCheck is accepted exactly when the RideCheck is pending, has not expired and
-- the verifier matches, however many attempts were used. A pending RideCheck becomes VERIFIED exactly
-- by an accepted attempt, EXPIRED exactly when its time is over, LOCKED exactly by a mismatch in time
-- that was the last attempt of the maximum or beyond it, and it stays PENDING exactly on a mismatch
-- in time that leaves one more. A RideCheck that is not pending keeps its status.
pub attempt-IsChecked : (i : RideCheckAttempt) → IsChecked i (evaluate_ride_check_attempt i)
unfolding evaluate_ride_check_attempt
attempt-IsChecked i = record {
  accepted_iff = ground arith;
  verifies = ground arith;
  expires = ground arith;
  locks = ground arith;
  stays = ground arith;
  settled = ground arith;
}

-- The status of a RideCheck after attempts, each at the status that the attempt before left.
abbrev pub checked : RideCheckStatus → List RideCheckAttempt → RideCheckStatus
checked s [] = s
checked s (a ∷ attempts) =
    checked (evaluate_ride_check_attempt (record a { status = s })).next_status attempts

-- An attempt in time with the verifier of the passenger.
abbrev pub is_match : RideCheckAttempt → Bool
is_match a = a.verifier_matches && not (not_after a.expires_at a.now)

verified_by_match :
    (s : RideCheckStatus) (a : RideCheckAttempt)
    → s ≢ RideCheckStatus.verified
    → is_match a ≡ false
    → (evaluate_ride_check_attempt (record a { status = s })).next_status ≢ RideCheckStatus.verified
unfolding evaluate_ride_check_attempt
verified_by_match s a unverified no_match = ground arith

checked-verified :
    (s : RideCheckStatus) (attempts : List RideCheckAttempt)
    → s ≢ RideCheckStatus.verified
    → some_of is_match attempts ≡ false
    → checked s attempts ≢ RideCheckStatus.verified
checked-verified s [] unverified none_matches = unverified
checked-verified s (a ∷ attempts) unverified none_matches =
    checked-verified (evaluate_ride_check_attempt (record a { status = s })).next_status attempts
      (verified_by_match s a unverified (ground arith)) (ground arith)

needs_verified :
    (i : JourneyStartInput) (s : RideCheckStatus)
    → i.ride_check_status ≡ some s
    → can_start_journey i ≡ true
    → s ≡ RideCheckStatus.verified
unfolding can_start_journey
needs_verified i s known starts = ground arith

-- A Journey whose RideCheck was not verified, and then had any attempts, starts only if one of the
-- attempts matched the verifier before the RideCheck expired.
pub start_needs_match :
    (i : JourneyStartInput) (s : RideCheckStatus) (attempts : List RideCheckAttempt)
    → s ≢ RideCheckStatus.verified
    → i.ride_check_status ≡ some (checked s attempts)
    → can_start_journey i ≡ true
    → some_of is_match attempts ≡ true
start_needs_match i s attempts unverified known starts =
    elim (Bool-cases (some_of is_match attempts)) [
      | inl matched ↦ matched
      | inr none_matches ↦ absurd (
          checked-verified s attempts unverified none_matches
            (needs_verified i (checked s attempts) known starts))
    ]
