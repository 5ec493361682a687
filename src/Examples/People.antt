-- ===== src/Examples/People.antt =====
-- Accounts, contacts and Drivers at concrete inputs.
use dazat_mobility.Base.{
  Date, Option, true, false, none, some, List, [], ◌∷◌, ◌≡◌, refl, natural, at, invalid, less,
  arith,
}
use dazat_mobility.Base.Texts.{
  units, trim, distinct_from, sort_texts, contains_text, has_content, has_content_opt,
  is_currency_code,
}
use dazat_mobility.Base.Results.{ok}
use dazat_mobility.Identity.Account.{
  AccountStatus, AccountCapability, RecoveryState, identity_assessment, recovery_approved,
  security_reset, recovery_complete, review_required, can_transition_recovery_state,
}
use dazat_mobility.Identity.Contact.{
  ContactPointType, normalise_contact, is_email, before_at, after_at,
}
use dazat_mobility.Identity.Laws.{
  Allows, capabilities_nested, recovery_chain_ok, visits, recovery_needs_approval,
  normalise_idempotent,
}
use dazat_mobility.Driver.Fatigue.{
  DriverFatigueSafetyInput, FatiguePolicy, evaluate_driver_fatigue_safety, decide_fatigue, clear,
  duty_minutes,
}
use dazat_mobility.Driver.Fatigue.DutyStart.{IsDutyStart}
use dazat_mobility.Driver.Fatigue.Laws.{IsSound, fatigue-IsSound, invalid_shift_clear, observed}
use dazat_mobility.Driver.Operations.{
  DriverOperatingEligibilityInput, school_only, evaluate_driver_operating_eligibility, service_open,
  operating_rows, current_services, DriverRestrictionScope-discrete,
}
use dazat_mobility.Driver.Operations.Laws.{IsCurrent, IsOpen, operating_sound}
use dazat_mobility.Driver.Daily.{
  DriverOfferDisclosureInput, evaluate_driver_offer_disclosure, disclosure_rows,
  ConnectivityAssessmentInput, ConnectivityAssessment, assess_driver_connectivity,
  connectivity_state, degraded, SupportInput, DriverSupportCategory,
}
use dazat_mobility.Driver.Daily.Laws.{IsInformed, acceptance_iff, connectivity_lem}

capabilities_nested_example : Allows AccountStatus.limited AccountCapability.support
capabilities_nested_example =
    (capabilities_nested AccountStatus.limited AccountCapability.support).0

abbrev recovery : List RecoveryState
recovery =
    identity_assessment ∷ review_required ∷ recovery_approved ∷ security_reset ∷ recovery_complete
    ∷ []

recovery_needs_approval_example :
    (visits recovery security_reset ≡ true) × (visits recovery recovery_approved ≡ true)
unfolding can_transition_recovery_state recovery_chain_ok
recovery_needs_approval_example = recovery_needs_approval recovery refl refl

normalise_idempotent_example :
    normalise_contact (λ s. s) ContactPointType.email (units "ada@dazat.ng")
    ≡ ok (units "ada@dazat.ng")
unfolding normalise_contact is_email before_at after_at trim
normalise_idempotent_example =
    normalise_idempotent (λ s. s) (λ s. refl) ContactPointType.email (units " ada@dazat.ng ")
      (units "ada@dazat.ng") refl

abbrev policy : FatiguePolicy
policy = record {
  warning_after_duty_minutes = natural 480;
  rest_required_after_duty_minutes = natural 600;
  minimum_qualifying_rest_minutes = natural 45;
}

-- Two hours into a shift.
abbrev shift : DriverFatigueSafetyInput
shift = record {
  shift_started_at = some (at 0);
  last_qualifying_rest_started_at = none;
  last_qualifying_rest_ended_at = none;
  now = at 7_200_000;
  active_journey = true;
  driver_reported_fatigue = false;
  drowsiness_signal_observed = false;
  policy = policy;
}

fatigue-IsSound_example :
    IsSound shift (decide_fatigue shift (observed shift))
    × (start : Option Date) × IsDutyStart shift start
    × ((decide_fatigue shift (observed shift)).observed_duty_minutes ≡ duty_minutes shift.now start)
unfolding evaluate_driver_fatigue_safety
fatigue-IsSound_example = fatigue-IsSound shift (decide_fatigue shift (observed shift)) refl

abbrev broken_shift : DriverFatigueSafetyInput
broken_shift = record shift { shift_started_at = some invalid }

invalid_shift_clear_example :
    ((decide_fatigue broken_shift (observed broken_shift)).state ≡ clear)
    × ((decide_fatigue broken_shift (observed broken_shift)).new_offers_allowed ≡ true)
unfolding evaluate_driver_fatigue_safety
invalid_shift_clear_example =
    invalid_shift_clear broken_shift (decide_fatigue broken_shift (observed broken_shift)) refl refl
      refl refl

abbrev applicant : DriverOperatingEligibilityInput
applicant = record {
  account_active = true;
  driver_approved = true;
  compliance_current = true;
  selected_vehicle_present = true;
  selected_vehicle_authorised = true;
  selected_vehicle_eligible = true;
  current_permission_service_codes =
      units "SCHOOL_RUN" ∷ units " EXECUTIVE" ∷ units "EXECUTIVE" ∷ [];
  active_restriction_scopes = school_only ∷ [];
}

operating_sound_example :
    IsCurrent (λ s. s) applicant (units "EXECUTIVE") × IsOpen (school_only ∷ []) (units "EXECUTIVE")
unfolding evaluate_driver_operating_eligibility operating_rows service_open current_services
    distinct_from sort_texts trim contains_text DriverRestrictionScope-discrete
operating_sound_example =
    ((operating_sound (λ s. s) applicant).1 (ground arith) (units "EXECUTIVE")).0 ([], [], refl)

abbrev offer : DriverOfferDisclosureInput
offer = record {
  pickup_distance_metres = some (natural 900);
  pickup_eta_minutes = some (natural 4);
  service_codes = units "EXECUTIVE" ∷ [];
  journey_context_labels = units "AIRPORT" ∷ [];
  expected_earning_amount_minor = some (natural 2_000);
  expected_earning_currency = some (units "NGN");
  expected_earning_policy_version = some (units "v1");
  expected_earning_derived_from_rider_fare = false;
  ordinary_decline_penalty_applied = false;
}

acceptance_iff_example : IsInformed offer
unfolding evaluate_driver_offer_disclosure disclosure_rows has_content has_content_opt trim
    is_currency_code
acceptance_iff_example = (acceptance_iff offer).0 refl

abbrev connection : ConnectivityAssessmentInput
connection = record {
  network_reachable = true;
  last_server_sync_at = some (at 595_000);
  now = at 600_000;
  maximum_fresh_age_ms = natural 10_000;
  authoritative_snapshot_applied = true;
  queued_critical_event_count = natural 2;
}

abbrev assessment : ConnectivityAssessment
assessment = record {
  state = degraded;
  authoritative_snapshot_required = false;
  speculative_state_may_be_trusted = false;
  queued_critical_events_executed_by_reconciliation = false;
  queued_critical_event_count = natural 2;
}

connectivity_lem_example :
    (true ≡ true)
    × (true ≡ true)
    × (less (natural 5_000) (natural 0) ≡ false)
    × (less (natural 10_000) (natural 5_000) ≡ false)
unfolding assess_driver_connectivity connectivity_state
connectivity_lem_example = (connectivity_lem connection assessment refl).0.0 refl

abbrev breakdown_case : SupportInput
breakdown_case = record {
  category = DriverSupportCategory.breakdown;
  active_journey = true;
  immediate_danger = false;
  service_continuity_at_risk = false;
}
