-- ===== src/CoreJourney/Laws.antt =====
-- What the provider-disabled core journey (core-journey-vertical-slice.ts) returns.
use dazat_mobility.Base.{
  Bool, true, false, ◌&&◌, none, List, [], ◌∷◌, ◌++◌, natural, less, is_safe_integer, ◌≡◌, ◌↔◌,
  arith, Bool-cases, inl, inr,
}
use dazat_mobility.Base.Texts.{Text, trim, is_currency_code}
use dazat_mobility.Base.Results.{Result, ok, err}
use dazat_mobility.Pricing.{
  QuoteStatus, assert_money_minor_units, assert_currency_code, is_quote_usable,
}
use dazat_mobility.Booking.Status.{BookingStatus, assert_canonical_forward_transition}
use dazat_mobility.Booking.Chains.{chain_ok}
use dazat_mobility.Dispatch.Eligibility.{evaluate_driver_dispatch_eligibility}
use dazat_mobility.Journey.Location.{MathOps, evaluate_arrival_evidence}
use dazat_mobility.Journey.RideCheck.{
  RideCheckStatus, evaluate_ride_check_attempt, can_start_journey, RideCheckAttempt,
  RideCheckAttemptDecision,
}
use dazat_mobility.Journey.Live.{evaluate_journey_completion}
use dazat_mobility.Journey.Laws.{attempt-IsChecked}
use dazat_mobility.CoreJourney.Slice.{
  CoreJourneyInput, CoreJourneyResult, SliceError, Progress, run_completion, run_ride_check,
  run_arrival, run_dispatch, run_provider_disabled_core_journey,
}

-- A computation returns, and what it returns satisfies `P`.
abbrev pub Returns : {A : Type 0} → (A → Type 0) → Result SliceError A → Type 0
Returns P (ok a) = P a
Returns P (err e) = ⊥

abbrev last_or : BookingStatus → List BookingStatus → BookingStatus
last_or s [] = s
last_or s (t ∷ ts) = last_or t ts

-- A result whose milestones are a chain of canonical transitions from DRAFT that ends in its status,
-- and that is completed exactly when it is COMPLETED, and exactly when nothing blocks it.
pub record IsTruthful (r : CoreJourneyResult) : Type 0 where
  pub canonical : chain_ok BookingStatus.draft r.milestones ≡ true
  pub at_last : r.booking_status ≡ last_or BookingStatus.draft r.milestones
  pub completed_iff : (r.completed ≡ true) ↔ (r.booking_status ≡ BookingStatus.completed)
  pub unblocked_iff : (r.completed ≡ true) ↔ (r.blocker ≡ none)

abbrev first_attempt : CoreJourneyInput → RideCheckAttempt
first_attempt i = record {
  status = RideCheckStatus.pending;
  verifier_matches = i.verifier_matches;
  attempts_used = 0;
  maximum_attempts = 3;
  expires_at = i.ride_check_expires_at;
  now = i.now;
}

pub record IsOutcome (passed : Bool) (r : CoreJourneyResult) : Type 0 where
  pub truthful : IsTruthful r
  pub complete_iff : r.completed ≡ passed

-- The progress on arrival at each stage.
abbrev quoted : List BookingStatus
quoted = BookingStatus.quote_created ∷ []

abbrev searching : List BookingStatus
searching =
    quoted
    ++ BookingStatus.awaiting_confirmation ∷ BookingStatus.confirmed
      ∷ BookingStatus.ready_for_dispatch ∷ BookingStatus.searching_for_driver ∷ []

abbrev on_the_way : List BookingStatus
on_the_way = searching ++ BookingStatus.driver_assigned ∷ BookingStatus.driver_en_route ∷ []

abbrev verified : List BookingStatus
verified =
    on_the_way
    ++ BookingStatus.driver_arrived ∷ BookingStatus.awaiting_ridecheck
      ∷ BookingStatus.passenger_verified ∷ []

abbrev at : BookingStatus → List BookingStatus → Progress
at s ms = record { status = s; milestones = ms }

module _ (m : MathOps) (i : CoreJourneyInput) where
  after_verified :
      Returns
        (IsOutcome (evaluate_journey_completion i.completion).allowed)
        (run_completion i (at BookingStatus.passenger_verified verified))
  unfolding run_completion assert_canonical_forward_transition chain_ok
  after_verified = ground arith

  abbrev attempt : RideCheckAttemptDecision
  attempt = evaluate_ride_check_attempt (first_attempt i)

  abbrev usable : Bool
  usable = is_quote_usable QuoteStatus.offered i.quote_expires_at i.now

  abbrev eligible : Bool
  eligible = (evaluate_driver_dispatch_eligibility i.driver i.now).eligible

  abbrev arrival : Bool
  arrival =
      (evaluate_arrival_evidence m i.pickup_observation i.pickup i.location_policy
        i.arrival_radius_metres).accepted

  -- With an eligible Driver at the pickup, an accepted attempt is all that the start needs.
  after_arrival :
      Returns
        (IsOutcome (attempt.accepted && (evaluate_journey_completion i.completion).allowed))
        (run_ride_check i true true (at BookingStatus.driver_en_route on_the_way))
  unfolding run_ride_check assert_canonical_forward_transition chain_ok can_start_journey
  after_arrival = elim (Bool-cases attempt.accepted) [
    | inl yes_ ↦
        let check = attempt-IsChecked (first_attempt i) in
        rw (yes_, (check.verifies (check.accepted_iff.0 yes_).0).1 yes_) after_verified
    | inr refused ↦ rw refused (ground arith)
  ]

  after_assignment :
      Returns
        (IsOutcome
          (arrival && (attempt.accepted && (evaluate_journey_completion i.completion).allowed)))
        (run_arrival m i true (at BookingStatus.searching_for_driver searching))
  unfolding run_arrival assert_canonical_forward_transition chain_ok
  after_assignment = elim (Bool-cases arrival) [
    | inl yes_ ↦ rw yes_ after_arrival
    | inr refused ↦ rw refused (ground arith)
  ]

  after_confirmation :
      Returns
        (IsOutcome (
          eligible
          && (arrival && (attempt.accepted && (evaluate_journey_completion i.completion).allowed))))
        (run_dispatch m i (at BookingStatus.quote_created quoted))
  unfolding run_dispatch assert_canonical_forward_transition chain_ok
  after_confirmation = elim (Bool-cases eligible) [
    | inl yes_ ↦ rw yes_ after_assignment
    | inr refused ↦ rw refused (ground arith)
  ]

  -- With a valid amount and currency the core journey returns a result: no transition is refused.
  -- The milestones of the result are a chain of canonical transitions from DRAFT that ends in its
  -- status, it is completed exactly when that status is COMPLETED and nothing blocks it, and that is
  -- exactly when every gate is passed: the quote, the Driver, the arrival, the RideCheck and the
  -- completion.
  pub run-IsOutcome :
      (upper : Text → Text)
      → is_safe_integer i.amount_minor ≡ true
      → less i.amount_minor (natural 0) ≡ false
      → is_currency_code (upper (trim i.currency)) ≡ true
      → Returns
          (IsOutcome (
            usable
            && (eligible
                && (arrival
                    && (attempt.accepted && (evaluate_journey_completion i.completion).allowed)))))
          (run_provider_disabled_core_journey m upper i)
  unfolding run_provider_disabled_core_journey assert_canonical_forward_transition chain_ok
      assert_money_minor_units assert_currency_code
  run-IsOutcome upper safe positive currency = elim (Bool-cases usable) [
    | inl yes_ ↦ rw (safe, positive, currency, yes_) after_confirmation
    | inr refused ↦ rw (safe, positive, currency, refused) (ground arith)
  ]
