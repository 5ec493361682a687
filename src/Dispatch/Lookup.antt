-- ===== src/Dispatch/Lookup.antt =====
-- services/api/src/modules/dispatch/dispatch-service.ts: readDriverEligibility and getDriverEligibility.
use dazat_mobility.Base.{
  ℕ, Bool, true, false, ◌&&◌, Option, none, some, List, [], ◌==◌, if◌then◌else◌, some_of, Date,
  Number,
}
use dazat_mobility.Base.Texts.{Text, text_eq, contains_text, member}
use dazat_mobility.Base.Results.{Result, ok, err, ◌>>=◌}
use dazat_mobility.Booking.Store.{first_of}
use dazat_mobility.Dispatch.Availability.{
  DriverAvailabilityStatus, offline, DriverEligibilityStatus, ineligible,
}
use dazat_mobility.Dispatch.Eligibility.{
  DriverEligibilityBlocker, DriverDispatchEligibilityInput, DriverDispatchEligibilityDecision,
  evaluate_driver_dispatch_eligibility,
}
use dazat_mobility.Dispatch.Market.{
  AvailabilityRow, AssignmentStatus, active, Market, DispatchError, not_found, forbidden,
}
use dazat_mobility.Dispatch.Evidence.{
  Capability, DispatchRequirement, hard_requirements_match, maintenance_permits_services,
  DispatchConfig, fatigue_safety_passed,
}
use dazat_mobility.Dispatch.Registry.{
  DriverFile, EligibilityQuery, MaintenanceGate, Registry, Snapshot, VehicleFile, conflicts_at,
  is_id, operating_restricted, permission_match,
}

abbrev pub is_active_status : AssignmentStatus → Bool
is_active_status active = true
is_active_status _ = false

-- The Driver has a row of driver_assignment that is ACTIVE.
abbrev pub has_active_assignment : Market → ℕ → Bool
has_active_assignment m driver =
    some_of (λ a. a.driver_id == driver && is_active_status a.status) m.assignments

abbrev pub availability_of : Market → ℕ → Option AvailabilityRow
availability_of m driver = first_of (λ r. r.driver_id == driver) m.availability

abbrev pub status_or_offline : Option AvailabilityRow → DriverAvailabilityStatus
status_or_offline none = offline
status_or_offline (some row) = row.status

abbrev observed_of : Option AvailabilityRow → Option Date
observed_of none = none
observed_of (some row) = row.location_observed_at

abbrev confidence_of : Option AvailabilityRow → Option Number
confidence_of none = none
confidence_of (some row) = row.location_confidence

abbrev snapshot_status : Option Snapshot → Option DriverEligibilityStatus
snapshot_status none = none
snapshot_status (some s) = some s.status

abbrev snapshot_until : Option Snapshot → Option Date
snapshot_until none = none
snapshot_until (some s) = s.valid_until

abbrev gate_permits : Option MaintenanceGate → List Text → Bool
gate_permits none services = maintenance_permits_services none none services
gate_permits (some g) services =
    maintenance_permits_services g.operating_permitted g.restricted_service_codes services

-- The vehicle of a query; without one the joins give no row.
abbrev vehicle_file : Registry → Option ℕ → VehicleFile
vehicle_file registry none = record { snapshot = none; service_capabilities = none; gate = none }
vehicle_file registry (some v) = registry.vehicles v

abbrev capabilities_of : VehicleFile → List (Text × Capability)
capabilities_of v = elim v.service_capabilities [ none ↦ [] | some entries ↦ entries ]

-- The input of the decision that both callers build.
unfoldable pub decision_input :
    Registry
    → DispatchConfig
    → Market
    → Date
    → ℕ
    → DriverFile
    → Bool
    → EligibilityQuery
    → List DispatchRequirement
    → Bool
    → DriverDispatchEligibilityInput
unfolding hard_requirements_match maintenance_permits_services text_eq contains_text member
decision_input registry config m now driver d account_active q requirements rested =
    let v = vehicle_file registry q.vehicle_id in
    let row = availability_of m driver in
    record {
      account_active = account_active;
      driver_profile_approved = d.approved;
      compliance_status = snapshot_status d.compliance;
      compliance_valid_until = snapshot_until d.compliance;
      vehicle_authorised = some_of (is_id q.vehicle_id) d.vehicles;
      vehicle_status =
          if gate_permits v.gate q.services then snapshot_status v.snapshot else some ineligible;
      vehicle_valid_until = snapshot_until v.snapshot;
      service_permission_match = permission_match d q.region_code q.services now;
      operating_restriction_active = operating_restricted d q now;
      availability_status = status_or_offline row;
      location_observed_at = observed_of row;
      location_confidence = confidence_of row;
      minimum_location_confidence = config.minimum_location_confidence;
      max_location_age_seconds = config.location_max_age_seconds;
      has_active_assignment = has_active_assignment m driver;
      has_schedule_conflict = conflicts_at d q.service_at q.excluded_booking;
      fatigue_safety_passed = rested;
      hard_requirements_match = hard_requirements_match requirements (capabilities_of v);
    }

-- The actor of a request, of AuthenticatedPrincipal.
pub record DispatchActor : Type 0 where
  pub account_id : ℕ
  pub person_id : ℕ
  pub account_active : Bool
  pub driver_profile_id : Option ℕ

pub record InternalEligibility : Type 0 where
  pub decision : DriverDispatchEligibilityDecision
  pub driver_profile_id : ℕ
  pub vehicle_id : Option ℕ
  pub compliance_valid_until : Option Date
  pub vehicle_valid_until : Option Date

abbrev registered : Registry → ℕ → Result DispatchError DriverFile
registered registry driver = elim (registry.drivers driver) [ none ↦ err not_found | some d ↦ ok d ]

-- readDriverEligibility for an actor with a Driver profile.
unfoldable pub read_driver_eligibility :
    Registry
    → DispatchConfig
    → Market
    → Date
    → ℕ
    → Bool
    → EligibilityQuery
    → List DispatchRequirement
    → Result DispatchError InternalEligibility
unfolding decision_input fatigue_safety_passed evaluate_driver_dispatch_eligibility
read_driver_eligibility registry config m now driver account_active q requirements = do
  d ← registered registry driver
  rested ← fatigue_safety_passed d.fatigue config now
  ok (record {
    decision =
        evaluate_driver_dispatch_eligibility
          (decision_input registry config m now driver d account_active q requirements rested) now;
    driver_profile_id = driver;
    vehicle_id = q.vehicle_id;
    compliance_valid_until = snapshot_until d.compliance;
    vehicle_valid_until = snapshot_until (vehicle_file registry q.vehicle_id).snapshot;
  })

pub record DriverEligibilitySummary : Type 0 where
  pub driver_profile_id : ℕ
  pub vehicle_id : Option ℕ
  pub eligible : Bool
  pub blockers : List DriverEligibilityBlocker
  pub compliance_valid_until : Option Date
  pub vehicle_valid_until : Option Date

abbrev public_eligibility : InternalEligibility → DriverEligibilitySummary
public_eligibility value = record {
  driver_profile_id = value.driver_profile_id;
  vehicle_id = value.vehicle_id;
  eligible = value.decision.eligible;
  blockers = value.decision.blockers;
  compliance_valid_until = value.compliance_valid_until;
  vehicle_valid_until = value.vehicle_valid_until;
}

-- getDriverEligibility: no service is asked for.
unfoldable get_driver_eligibility :
    Registry
    → DispatchConfig
    → Market
    → Date
    → DispatchActor
    → Option ℕ
    → Text
    → Result DispatchError DriverEligibilitySummary
unfolding read_driver_eligibility
get_driver_eligibility registry config m now actor vehicle region = do
  driver ← elim actor.driver_profile_id [ none ↦ err forbidden | some d ↦ ok d ]
  value ←
      read_driver_eligibility registry config m now driver actor.account_active
        (record {
          vehicle_id = vehicle;
          region_code = some region;
          services = [];
          service_at = none;
          excluded_booking = none;
        })
        []
  ok (public_eligibility value)
