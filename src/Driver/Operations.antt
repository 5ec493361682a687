-- ===== src/Driver/Operations.antt =====
-- packages/domain/src/driver-operations.ts: applications, evidence and the operating eligibility.
-- `upper` stands for `toUpperCase`.
pub mod Current
pub mod Kept
pub mod Laws
use dazat_mobility.Base.{
  Bool, true, false, ◌&&◌, ◌||◌, not, Option, none, some, List, [], ◌∷◌, map, includes, collect,
  is_empty, keep, length, ltb, Date, before, if◌then◌else◌,
}
use dazat_mobility.Base.Texts.{Text, units, trim, contains_text, distinct_from, sort_texts}

pub data DriverApplicationStatus : Type 0 where
  started contact_verified identity_pending documents_pending training_pending vehicle_pending :
      DriverApplicationStatus
  review_pending approved declined withdrawn expired : DriverApplicationStatus

unfoldable pub DriverApplicationStatus-discrete : Discrete DriverApplicationStatus
DriverApplicationStatus-discrete = hlevel

unfoldable application_transitions : DriverApplicationStatus → List DriverApplicationStatus
application_transitions started = contact_verified ∷ withdrawn ∷ expired ∷ []
application_transitions contact_verified = identity_pending ∷ withdrawn ∷ expired ∷ []
application_transitions identity_pending = documents_pending ∷ declined ∷ withdrawn ∷ expired ∷ []
application_transitions documents_pending =
    training_pending ∷ vehicle_pending ∷ review_pending ∷ declined ∷ withdrawn ∷ expired ∷ []
application_transitions training_pending =
    documents_pending ∷ vehicle_pending ∷ review_pending ∷ declined ∷ withdrawn ∷ expired ∷ []
application_transitions vehicle_pending =
    documents_pending ∷ training_pending ∷ review_pending ∷ declined ∷ withdrawn ∷ expired ∷ []
application_transitions review_pending =
    documents_pending ∷ training_pending ∷ vehicle_pending ∷ approved ∷ declined ∷ withdrawn
    ∷ expired ∷ []
application_transitions _ = []

unfoldable can_transition_driver_application :
    DriverApplicationStatus → DriverApplicationStatus → Bool
unfolding application_transitions DriverApplicationStatus-discrete
can_transition_driver_application from to =
    includes DriverApplicationStatus-discrete (application_transitions from) to

pub data DriverDocumentStatus : Type 0 where
  uploaded extraction_pending extracted review_pending verified rejected expired superseded :
      DriverDocumentStatus

pub data ReviewDecision : Type 0 where
  verified rejected : ReviewDecision

-- !validUntil || validUntil.getTime() > now.getTime()
abbrev still_valid : Option Date → Date → Bool
still_valid none now = true
still_valid (some d) now = before now d

abbrev document_is_verified : DriverDocumentStatus → Bool
document_is_verified DriverDocumentStatus.verified = true
document_is_verified _ = false

abbrev review_is_verified : Option ReviewDecision → Bool
review_is_verified (some ReviewDecision.verified) = true
review_is_verified _ = false

unfoldable document_satisfies_compliance :
    DriverDocumentStatus → Option ReviewDecision → Option Date → Date → Bool
document_satisfies_compliance status review valid_until now =
    document_is_verified status && review_is_verified review && still_valid valid_until now

pub data TrainingRecordStatus : Type 0 where
  attended passed failed expired revoked : TrainingRecordStatus

pub record TrainingRecord : Type 0 where
  pub status : TrainingRecordStatus
  pub assessment_required : Bool
  pub assessment_passed : Bool
  pub competency_confirmed : Bool
  pub valid_until : Option Date

abbrev is_passed : TrainingRecordStatus → Bool
is_passed passed = true
is_passed _ = false

unfoldable training_grants_competency : TrainingRecord → Date → Bool
training_grants_competency t now =
    is_passed t.status
    && t.competency_confirmed
    && (not t.assessment_required || t.assessment_passed)
    && still_valid t.valid_until now

pub data DriverRestrictionScope : Type 0 where
  all_services school_only wav_only new_journeys payout_only specific_vehicle :
      DriverRestrictionScope

unfoldable pub DriverRestrictionScope-discrete : Discrete DriverRestrictionScope
DriverRestrictionScope-discrete = hlevel

pub data DriverOperatingEligibilityStatus : Type 0 where
  eligible partially_eligible not_eligible : DriverOperatingEligibilityStatus

pub record DriverOperatingEligibilityInput : Type 0 where
  pub account_active : Bool
  pub driver_approved : Bool
  pub compliance_current : Bool
  pub selected_vehicle_present : Bool
  pub selected_vehicle_authorised : Bool
  pub selected_vehicle_eligible : Bool
  pub current_permission_service_codes : List Text
  pub active_restriction_scopes : List DriverRestrictionScope

pub data OperatingBlocker : Type 0 where
  account_not_active driver_application_not_approved : OperatingBlocker
  driver_compliance_not_current selected_vehicle_required : OperatingBlocker
  driver_vehicle_pair_not_authorised vehicle_not_eligible : OperatingBlocker
  operating_restriction_active selected_vehicle_restriction_active : OperatingBlocker
  no_current_service_permission all_current_service_permissions_restricted : OperatingBlocker

pub record DriverOperatingEligibilityDecision : Type 0 where
  pub status : DriverOperatingEligibilityStatus
  pub eligible_service_codes : List Text
  pub blockers : List OperatingBlocker
  pub availability_evaluated_separately : Bool

-- The codes of the permissions, trimmed and in capitals, without the empty ones, once each, sorted.
unfoldable pub current_services : (Text → Text) → List Text → List Text
unfolding distinct_from sort_texts trim
current_services upper codes =
    sort_texts (distinct_from [] (keep (λ c. not (is_empty c)) (map (λ c. upper (trim c)) codes)))

abbrev pub restricted_by : DriverRestrictionScope → List DriverRestrictionScope → Bool
restricted_by scope scopes = includes DriverRestrictionScope-discrete scopes scope

unfoldable pub service_open : List DriverRestrictionScope → Text → Bool
unfolding contains_text DriverRestrictionScope-discrete
service_open scopes code =
    if restricted_by school_only scopes && contains_text (units "SCHOOL") code
    then false
    else if restricted_by wav_only scopes && contains_text (units "WAV") code
    then false
    else true

abbrev pub open_services : (Text → Text) → DriverOperatingEligibilityInput → List Text
open_services upper i =
    keep (service_open i.active_restriction_scopes)
      (current_services upper i.current_permission_service_codes)

unfoldable pub operating_rows :
    (Text → Text) → DriverOperatingEligibilityInput → List (Bool × OperatingBlocker)
unfolding DriverRestrictionScope-discrete
operating_rows upper i =
    let scopes = i.active_restriction_scopes in
    let current = current_services upper i.current_permission_service_codes in
    (not i.account_active, account_not_active)
    ∷ (not i.driver_approved, driver_application_not_approved)
    ∷ (not i.compliance_current, driver_compliance_not_current)
    ∷ (not i.selected_vehicle_present, selected_vehicle_required)
    ∷ (
      i.selected_vehicle_present && not i.selected_vehicle_authorised,
      driver_vehicle_pair_not_authorised,
    )
    ∷ (i.selected_vehicle_present && not i.selected_vehicle_eligible, vehicle_not_eligible)
    ∷ (
      restricted_by all_services scopes || restricted_by new_journeys scopes,
      operating_restriction_active,
    )
    ∷ (restricted_by specific_vehicle scopes, selected_vehicle_restriction_active)
    ∷ (is_empty current, no_current_service_permission)
    ∷ (
      not (is_empty current) && is_empty (open_services upper i),
      all_current_service_permissions_restricted,
    )
    ∷ []

unfoldable pub evaluate_driver_operating_eligibility :
    (Text → Text) → DriverOperatingEligibilityInput → DriverOperatingEligibilityDecision
evaluate_driver_operating_eligibility upper i =
    let blockers : List OperatingBlocker = collect (operating_rows upper i) in
    let services = open_services upper i in
    let scoped =
      ltb (length services) (length (current_services upper i.current_permission_service_codes)) in
    record {
      status =
          if not (is_empty blockers)
          then not_eligible
          else if scoped
          then partially_eligible
          else eligible;
      eligible_service_codes = if not (is_empty blockers) then [] else services;
      blockers = blockers;
      availability_evaluated_separately = true;
    }
