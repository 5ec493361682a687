-- ===== src/Dispatch/Eligibility/Laws.antt =====
-- When a Driver is eligible for dispatch (dispatch.ts).
use dazat_mobility.Base.{
  Bool, true, false, ◌&&◌, not, Option, none, some, ◌≡◌, refl, ◌↔◌, ◌⊎◌, arith, All,
  collect-empty_iff, Date, not_after, Number, less, less_eq, scale, ms_between,
}
use dazat_mobility.Dispatch.Availability.{
  DriverAvailabilityStatus, available, offered, finishing_soon, DriverEligibilityStatus, eligible,
}
use dazat_mobility.Dispatch.Eligibility.{
  is_location_fresh, DriverDispatchEligibilityInput, eligibility_rows, lapsed, is_missing, stale,
  low_confidence, is_eligible, takes_work, evaluate_driver_dispatch_eligibility,
}

-- The conditions of a Driver who can be offered work, each over the evidence that is present.
pub record MayBeOffered (i : DriverDispatchEligibilityInput) (now : Date) : Type 0 where
  pub account : i.account_active ≡ true
  pub profile : i.driver_profile_approved ≡ true
  pub compliance : i.compliance_status ≡ some eligible
  pub compliance_current :
      (d : Date) × (i.compliance_valid_until ≡ some d) × (not_after d now ≡ false)
  pub vehicle_pair : i.vehicle_authorised ≡ true
  pub vehicle : i.vehicle_status ≡ some eligible
  pub vehicle_current : (d : Date) × (i.vehicle_valid_until ≡ some d) × (not_after d now ≡ false)
  pub permission : i.service_permission_match ≡ true
  pub unrestricted : i.operating_restriction_active ≡ false
  pub available_for_work :
      (i.availability_status ≡ available)
      ⊎ (i.availability_status ≡ offered)
      ⊎ (i.availability_status ≡ finishing_soon)
  pub located :
      (d : Date) × (i.location_observed_at ≡ some d)
      × (not_after d now ≡ true)
      × (less_eq (ms_between now d) (scale i.max_location_age_seconds 1_000) ≡ true)
  pub confident :
      (c : Number) × (i.location_confidence ≡ some c)
      × (less c i.minimum_location_confidence ≡ false)
  pub unassigned : i.has_active_assignment ≡ false
  pub free : i.has_schedule_conflict ≡ false
  pub rested : i.fatigue_safety_passed ≡ true
  pub suited : i.hard_requirements_match ≡ true

not-false : (b : Bool) → not b ≡ false → b ≡ true
not-false true h = refl
not-false false h = cc

is_eligible-eq :
    (o : Option DriverEligibilityStatus) → not (is_eligible o) ≡ false → o ≡ some eligible
is_eligible-eq o h = ground arith

current :
    (e : Bool) (o : Option Date) (now : Date)
    → not e ≡ false
    → e && lapsed o now ≡ false
    → (d : Date) × (o ≡ some d) × (not_after d now ≡ false)
current true none now h k = cc
current true (some d) now h k = (d, refl, k)
current false o now h k = cc

takes_work-cases :
    (s : DriverAvailabilityStatus)
    → not (takes_work s) ≡ false
    → (s ≡ available) ⊎ (s ≡ offered) ⊎ (s ≡ finishing_soon)
takes_work-cases s h = ground arith

fresh :
    (o : Option Date) (now : Date) (m : Number)
    → is_missing o ≡ false
    → stale o now m ≡ false
    → (d : Date) × (o ≡ some d)
      × (not_after d now ≡ true)
      × (less_eq (ms_between now d) (scale m 1_000) ≡ true)
unfolding is_location_fresh
fresh none now m h k = cc
fresh (some d) now m h k = (d, refl, ground arith, ground arith)

sure :
    (o : Option Number) (m : Number)
    → low_confidence o m ≡ false
    → (c : Number) × (o ≡ some c) × (less c m ≡ false)
sure none m h = cc
sure (some c) m h = (c, refl, h)

module _ (i : DriverDispatchEligibilityInput) (now : Date) where
  rows_to_conditions : All (λ r. r.0 ≡ false) (eligibility_rows i now) → MayBeOffered i now
  unfolding eligibility_rows
  rows_to_conditions
        (
          account,
          (
            profile,
            (
              compliance,
              (
                expiry,
                (
                  pair,
                  (
                    vehicle,
                    (
                      vehicle_expiry,
                      (
                        permission,
                        (
                          restriction,
                          (
                            state,
                            (missing, (old, (unsure, (work, (clash, (fatigue, (needs, _))))))),
                          ),
                        ),
                      ),
                    ),
                  ),
                ),
              ),
            ),
          ),
        ) =
      record {
        account = not-false _ account;
        profile = not-false _ profile;
        compliance = is_eligible-eq _ compliance;
        compliance_current = current _ _ now compliance expiry;
        vehicle_pair = not-false _ pair;
        vehicle = is_eligible-eq _ vehicle;
        vehicle_current = current _ _ now vehicle vehicle_expiry;
        permission = not-false _ permission;
        unrestricted = restriction;
        available_for_work = takes_work-cases _ state;
        located = fresh _ now _ missing old;
        confident = sure _ _ unsure;
        unassigned = work;
        free = clash;
        rested = not-false _ fatigue;
        suited = not-false _ needs;
      }

  conditions_to_rows : MayBeOffered i now → All (λ r. r.0 ≡ false) (eligibility_rows i now)
  unfolding eligibility_rows is_location_fresh
  conditions_to_rows m = ground arith

  -- A Driver is eligible for dispatch exactly when every one of the hard conditions holds.
  pub eligible_iff :
      ((evaluate_driver_dispatch_eligibility i now).eligible ≡ true) ↔ MayBeOffered i now
  unfolding evaluate_driver_dispatch_eligibility
  eligible_iff =
      let (to, from) = collect-empty_iff (eligibility_rows i now) in
      (λ e. rows_to_conditions (to e), λ m. from (conditions_to_rows m))
