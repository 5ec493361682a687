-- ===== src/Dispatch/Registry.antt =====
-- services/api/src/modules/dispatch/dispatch-service.ts: the rows of Drivers and vehicles that the
-- hard filters of Dispatch read, and the tests on them. These rows are written elsewhere; the
-- availability and the assignments come from the tables of Dispatch.
use dazat_mobility.Base.{
  ℕ, Bool, true, false, ◌&&◌, not, Option, none, some, List, ◌==◌, if◌then◌else◌, every, some_of,
  is_empty, Date, not_after, before,
}
use dazat_mobility.Base.Texts.{Text, units, text_eq, contains_text, member}
use dazat_mobility.Dispatch.Availability.{DriverEligibilityStatus}
use dazat_mobility.Dispatch.Evidence.{Capability, FatigueRow}

pub record PermissionRow : Type 0 where
  pub region_code : Text
  pub service_code : Text

pub data RestrictionScope : Type 0 where
  all_services new_journeys specific_vehicle school_only wav_only payout_only : RestrictionScope

pub record RestrictionRow : Type 0 where
  pub scope : RestrictionScope
  pub vehicle_id : Option ℕ
  pub is_active : Bool
  pub effective_from : Date
  pub effective_until : Option Date

pub record CommitmentRow : Type 0 where
  pub booking_id : ℕ
  pub is_accepted : Bool
  pub protected_from : Date
  pub protected_until : Date

-- The latest snapshot of a Driver or of a vehicle.
pub record Snapshot : Type 0 where
  pub status : DriverEligibilityStatus
  pub valid_until : Option Date

pub record DriverFile : Type 0 where
  pub account_active : Bool
  pub approved : Bool
  pub compliance : Option Snapshot
  pub vehicles : List ℕ
  pub permissions : List PermissionRow
  pub restrictions : List RestrictionRow
  pub commitments : List CommitmentRow
  pub fatigue : FatigueRow

-- A row of current_vehicle_maintenance_gate.
pub record MaintenanceGate : Type 0 where
  pub operating_permitted : Option Bool
  pub restricted_service_codes : Option (List Text)

pub record VehicleFile : Type 0 where
  pub snapshot : Option Snapshot
  pub service_capabilities : Option (List (Text × Capability))
  pub gate : Option MaintenanceGate

pub record Registry : Type 0 where
  pub drivers : ℕ → Option DriverFile
  pub vehicles : ℕ → VehicleFile

-- What a call asks for: the vehicle, the region, the services and the time of the service.
pub record EligibilityQuery : Type 0 where
  pub vehicle_id : Option ℕ
  pub region_code : Option Text
  pub services : List Text
  pub service_at : Option Date
  pub excluded_booking : Option ℕ

abbrev pub is_id : Option ℕ → ℕ → Bool
is_id none n = false
is_id (some m) n = m == n

abbrev not_ended : Option Date → Date → Bool
not_ended none now = true
not_ended (some d) now = before now d

-- status = 'ACTIVE', begun and not ended.
abbrev in_force : RestrictionRow → Date → Bool
in_force r now = r.is_active && (not_after r.effective_from now && not_ended r.effective_until now)

abbrev restricts_vehicle : Option ℕ → Option ℕ → Bool
restricts_vehicle (some a) (some b) = a == b
restricts_vehicle _ _ = false

abbrev scope_applies : RestrictionScope → Option ℕ → EligibilityQuery → Bool
scope_applies all_services vehicle q = true
scope_applies new_journeys vehicle q = true
scope_applies specific_vehicle vehicle q = restricts_vehicle vehicle q.vehicle_id
scope_applies school_only vehicle q = member (units "SCHOOL") q.services
scope_applies wav_only vehicle q = member (units "WAV") q.services
scope_applies payout_only vehicle q = false

abbrev pub operating_restricted : DriverFile → EligibilityQuery → Date → Bool
operating_restricted d q now =
    some_of (λ r. in_force r now && scope_applies r.scope r.vehicle_id q) d.restrictions

-- A restriction in force whose scope covers the service of a permission.
abbrev scope_covers : RestrictionScope → Text → Bool
scope_covers school_only service = contains_text (units "SCHOOL") service
scope_covers wav_only service = contains_text (units "WAV") service
scope_covers _ service = false

abbrev unrestricted_permission : DriverFile → Text → Date → PermissionRow → Bool
unrestricted_permission d region now p =
    text_eq p.region_code region
    && not (some_of (λ r. in_force r now && scope_covers r.scope p.service_code) d.restrictions)

abbrev has_permission : DriverFile → Text → Text → Bool
has_permission d region service =
    some_of (λ p. text_eq p.region_code region && text_eq p.service_code service) d.permissions

-- The CASE of service_permission_match.
abbrev pub permission_match : DriverFile → Option Text → List Text → Date → Bool
permission_match d none services now = false
permission_match d (some region) services now =
    if is_empty services
    then some_of (unrestricted_permission d region now) d.permissions
    else every (has_permission d region) services

abbrev pub conflicts_at : DriverFile → Option Date → Option ℕ → Bool
conflicts_at d none excluded = false
conflicts_at d (some t) excluded =
    some_of
      (λ c.
        c.is_accepted
        && (not (is_id excluded c.booking_id)
            && (not_after c.protected_from t && not_after t c.protected_until)))
      d.commitments
