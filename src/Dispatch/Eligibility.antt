-- ===== src/Dispatch/Eligibility.antt =====
-- packages/domain/src/dispatch.ts: the freshness of a location and the hard eligibility of a Driver.
pub mod Laws
use dazat_mobility.Base.{
  ℕ, Bool, true, false, ◌&&◌, ◌||◌, not, Option, none, some, List, [], ◌∷◌, includes, same,
  is_empty, collect, Date, before, not_after, ms_between, Number, less, less_eq, scale,
}
use dazat_mobility.Dispatch.Availability.{
  DriverAvailabilityStatus, DriverAvailabilityStatus-discrete, available, offered, finishing_soon,
  DriverEligibilityStatus, DriverEligibilityStatus-discrete, eligible,
}

-- The test `observedAt <= now` is the one that the age is not negative.
unfoldable pub is_location_fresh : Date → Date → Number → Bool
is_location_fresh observed_at now max_age_seconds =
    not_after observed_at now && less_eq (ms_between now observed_at) (scale max_age_seconds 1_000)

pub data DriverEligibilityBlocker : Type 0 where
  account_not_active driver_profile_not_approved compliance_not_eligible : DriverEligibilityBlocker
  compliance_expired vehicle_not_authorised vehicle_not_eligible : DriverEligibilityBlocker
  vehicle_eligibility_expired service_permission_mismatch : DriverEligibilityBlocker
  operating_restriction_active not_available location_missing : DriverEligibilityBlocker
  location_stale location_confidence_low active_assignment : DriverEligibilityBlocker
  schedule_conflict fatigue_safety_blocked hard_requirement_mismatch : DriverEligibilityBlocker

pub record DriverDispatchEligibilityInput : Type 0 where
  pub account_active : Bool
  pub driver_profile_approved : Bool
  pub compliance_status : Option DriverEligibilityStatus
  pub compliance_valid_until : Option Date
  pub vehicle_authorised : Bool
  pub vehicle_status : Option DriverEligibilityStatus
  pub vehicle_valid_until : Option Date
  pub service_permission_match : Bool
  pub operating_restriction_active : Bool
  pub availability_status : DriverAvailabilityStatus
  pub location_observed_at : Option Date
  pub location_confidence : Option Number
  pub minimum_location_confidence : Number
  pub max_location_age_seconds : Number
  pub has_active_assignment : Bool
  pub has_schedule_conflict : Bool
  pub fatigue_safety_passed : Bool
  pub hard_requirements_match : Bool

pub record DriverDispatchEligibilityDecision : Type 0 where
  pub eligible : Bool
  pub blockers : List DriverEligibilityBlocker

-- status === 'ELIGIBLE'
abbrev pub is_eligible : Option DriverEligibilityStatus → Bool
is_eligible none = false
is_eligible (some eligible) = true
is_eligible (some _) = false

-- !validUntil || validUntil.getTime() <= now.getTime()
abbrev pub lapsed : Option Date → Date → Bool
lapsed none now = true
lapsed (some d) now = not_after d now

-- ['AVAILABLE', 'OFFERED', 'FINISHING_SOON'].includes(status)
abbrev pub takes_work : DriverAvailabilityStatus → Bool
takes_work available = true
takes_work offered = true
takes_work finishing_soon = true
takes_work _ = false

abbrev pub stale : Option Date → Date → Number → Bool
stale none now max_age = false
stale (some d) now max_age = not (is_location_fresh d now max_age)

abbrev pub is_missing {ℓ} : {A : Type ℓ} → Option A → Bool
is_missing none = true
is_missing (some _) = false

abbrev pub low_confidence : Option Number → Number → Bool
low_confidence none least = true
low_confidence (some c) least = less c least

-- The tests of the function in their order, each with what it reports; an `else if` is a test with
-- the negated tests above it.
unfoldable pub eligibility_rows :
    DriverDispatchEligibilityInput → Date → List (Bool × DriverEligibilityBlocker)
unfolding is_location_fresh
eligibility_rows i now =
    (not i.account_active, account_not_active)
    ∷ (not i.driver_profile_approved, driver_profile_not_approved)
    ∷ (not (is_eligible i.compliance_status), compliance_not_eligible)
    ∷ (is_eligible i.compliance_status && lapsed i.compliance_valid_until now, compliance_expired)
    ∷ (not i.vehicle_authorised, vehicle_not_authorised)
    ∷ (not (is_eligible i.vehicle_status), vehicle_not_eligible)
    ∷ (
      is_eligible i.vehicle_status && lapsed i.vehicle_valid_until now,
      vehicle_eligibility_expired,
    )
    ∷ (not i.service_permission_match, service_permission_mismatch)
    ∷ (i.operating_restriction_active, operating_restriction_active)
    ∷ (not (takes_work i.availability_status), not_available)
    ∷ (is_missing i.location_observed_at, location_missing)
    ∷ (stale i.location_observed_at now i.max_location_age_seconds, location_stale)
    ∷ (low_confidence i.location_confidence i.minimum_location_confidence, location_confidence_low)
    ∷ (i.has_active_assignment, active_assignment)
    ∷ (i.has_schedule_conflict, schedule_conflict)
    ∷ (not i.fatigue_safety_passed, fatigue_safety_blocked)
    ∷ (not i.hard_requirements_match, hard_requirement_mismatch)
    ∷ []

unfoldable pub evaluate_driver_dispatch_eligibility :
    DriverDispatchEligibilityInput → Date → DriverDispatchEligibilityDecision
unfolding eligibility_rows
evaluate_driver_dispatch_eligibility i now =
    let blockers : List DriverEligibilityBlocker = collect (eligibility_rows i now) in
    record { eligible = is_empty blockers; blockers = blockers }
