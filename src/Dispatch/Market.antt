-- ===== src/Dispatch/Market.antt =====
-- services/api/src/modules/dispatch/dispatch-service.ts: the tables of dispatch.* and driver.* that
-- its statements write, beside the tables of bookings, and the end of a transaction. Identifiers
-- come from the counter of the booking tables.
use dazat_mobility.Base.{
  ℕ, ◌+◌, Bool, true, false, Option, none, some, List, [], ◌∷◌, ◌++◌, ◌==◌, if◌then◌else◌, Date,
  Number,
}
use dazat_mobility.Base.Texts.{Text}
use dazat_mobility.Base.Results.{Result, err}
use dazat_mobility.Booking.Status.{BookingStatus}
use dazat_mobility.Booking.Store.{Db}
use dazat_mobility.Dispatch.Availability.{DriverAvailabilityStatus, DriverOfferStatus}
use dazat_mobility.Dispatch.Eligibility.{DriverEligibilityBlocker}
use dazat_mobility.Driver.Fatigue.{FatigueError}

pub data DispatchAttemptStatus : Type 0 where
  searching offering assigned no_eligible_driver cancelled : DispatchAttemptStatus

pub data AssignmentStatus : Type 0 where
  active cancelled completed reassigned : AssignmentStatus

pub data ResponseReason : Type 0 where
  ttl_expired driver_work_intent_change driver_became_ineligible booking_assigned : ResponseReason
  not_suitable taking_break finishing_soon other : ResponseReason

pub record AttemptRow : Type 0 where
  pub id : ℕ
  pub booking_id : ℕ
  pub booking_version : ℕ
  pub status : DispatchAttemptStatus
  pub region_code : Text

-- A row of driver_offer with whether its row of driver_offer_disclosure allows acceptance.
pub record OfferRow : Type 0 where
  pub id : ℕ
  pub attempt_id : ℕ
  pub booking_id : ℕ
  pub driver_id : ℕ
  pub vehicle_id : ℕ
  pub status : DriverOfferStatus
  pub expires_at : Date
  pub reason : Option ResponseReason
  pub acceptance_allowed : Option Bool

pub record AssignmentRow : Type 0 where
  pub id : ℕ
  pub attempt_id : ℕ
  pub offer_id : ℕ
  pub booking_id : ℕ
  pub driver_id : ℕ
  pub vehicle_id : ℕ
  pub status : AssignmentStatus

pub record AvailabilityRow : Type 0 where
  pub driver_id : ℕ
  pub status : DriverAvailabilityStatus
  pub version : ℕ
  pub region_code : Option Text
  pub vehicle_id : Option ℕ
  pub location_observed_at : Option Date
  pub location_confidence : Option Number

pub record AvailabilityTransitionRow : Type 0 where
  pub driver_id : ℕ
  pub from_status : DriverAvailabilityStatus
  pub to_status : DriverAvailabilityStatus
  pub version : ℕ
  pub command_id : ℕ

pub record ShiftRow : Type 0 where
  pub id : ℕ
  pub driver_id : ℕ
  pub active : Bool
  pub region_code : Text
  pub vehicle_id : ℕ

pub data ShiftEventType : Type 0 where
  shift_started shift_ended offer_accepted work_intent_changed : ShiftEventType

pub record ShiftEventRow : Type 0 where
  pub shift_id : ℕ
  pub driver_id : ℕ
  pub event_type : ShiftEventType
  pub from_status : DriverAvailabilityStatus
  pub to_status : DriverAvailabilityStatus
  pub version : ℕ
  pub command_id : ℕ

-- driver_offer_outcome_attribution; the columns on misconduct and penalties are false in every
-- statement.
pub data OfferOutcome : Type 0 where
  accepted declined timed_out withdrawn driver_became_ineligible assigned_elsewhere : OfferOutcome

pub record AttributionRow : Type 0 where
  pub offer_id : ℕ
  pub driver_id : ℕ
  pub outcome : OfferOutcome
  pub reason : Option ResponseReason
  pub ordinary_decline : Bool

pub data MessageType : Type 0 where
  offer_wave_created driver_offer_declined driver_assigned : MessageType

pub record MessageRow : Type 0 where
  pub aggregate_id : ℕ
  pub event_type : MessageType
  pub causation_id : ℕ

pub record AcceptDriverOfferResult : Type 0 where
  pub offer_id : ℕ
  pub assignment_id : ℕ
  pub booking_id : ℕ
  pub booking_status : BookingStatus
  pub driver_id : ℕ
  pub vehicle_id : ℕ
  pub assigned_at : Date

pub record DeclineDriverOfferResult : Type 0 where
  pub offer_id : ℕ
  pub declined_at : Date
  pub acceptance_rate_penalty_applied : Bool

pub record StartDispatchResult : Type 0 where
  pub booking_id : ℕ
  pub booking_status : BookingStatus
  pub attempt_id : ℕ
  pub dispatch_status : DispatchAttemptStatus
  pub eligible_candidate_count : ℕ
  pub offered_driver_count : ℕ

pub record DriverAvailabilitySummary : Type 0 where
  pub driver_id : ℕ
  pub status : DriverAvailabilityStatus
  pub version : ℕ
  pub region_code : Option Text
  pub vehicle_id : Option ℕ
  pub location_observed_at : Option Date
  pub eligible : Bool
  pub blockers : List DriverEligibilityBlocker

-- The response that a command stored; the command type is the constructor.
pub data DispatchResponse : Type 0 where
  set_availability : DriverAvailabilitySummary → DispatchResponse
  dispatch_started : StartDispatchResult → DispatchResponse
  offer_declined : DeclineDriverOfferResult → DispatchResponse
  offer_accepted : AcceptDriverOfferResult → DispatchResponse

pub record DispatchCommandRow : Type 0 where
  pub idempotency_key : Text
  pub subject_id : ℕ
  pub response : DispatchResponse

pub record Market : Type 0 where
  pub store : Db
  pub attempts : List AttemptRow
  pub offers : List OfferRow
  pub assignments : List AssignmentRow
  pub availability : List AvailabilityRow
  pub availability_transitions : List AvailabilityTransitionRow
  pub shifts : List ShiftRow
  pub shift_events : List ShiftEventRow
  pub attributions : List AttributionRow
  pub messages : List MessageRow
  pub commands : List DispatchCommandRow

pub data DispatchError : Type 0 where
  not_found forbidden conflict unique_violation check_violation : DispatchError
  invalid_availability_transition : DispatchError
  fatigue_failed : FatigueError → DispatchError
  driver_not_eligible : List DriverEligibilityBlocker → DispatchError

-- How a transaction ends: by COMMIT, after which the code returns or throws, or by ROLLBACK with
-- what was thrown.
pub data Ended (A : Type 0) : Type 0 where
  committed : Result DispatchError A → Market → Ended A
  rolled_back : DispatchError → Ended A

-- The outcome of the whole call and the tables after it.
abbrev pub settled : {A : Type 0} → Market → Ended A → Result DispatchError A × Market
settled m (committed r after) = (r, after)
settled m (rolled_back e) = (err e, m)

-- `if (!test) throw e` inside a transaction that is rolled back.
abbrev pub ensure : {A : Type 0} → Bool → DispatchError → Ended A → Ended A
ensure test e rest = if test then rest else rolled_back e

-- `result.rows[0]`, or a throw where there is no row.
abbrev pub with_row : {A B : Type 0} → Option A → DispatchError → (A → Ended B) → Ended B
with_row none e rest = rolled_back e
with_row (some a) e rest = rest a

-- The count of rows with a test.
abbrev pub count {ℓ} : {A : Type ℓ} → (A → Bool) → List A → ℕ
count p [] = 0
count p (x ∷ xs) = (if p x then 1 else 0) + count p xs

abbrev pub next_id : Market → ℕ
next_id m = m.store.next_id

-- The tables after `n` identifiers were made.
abbrev pub made : ℕ → Market → Market
made n m = record m { store = record m.store { next_id = m.store.next_id + n } }

abbrev pub message : ℕ → MessageType → ℕ → Market → Market
message aggregate event_type cause m = record m {
  messages =
      m.messages
      ++ record { aggregate_id = aggregate; event_type = event_type; causation_id = cause } ∷ [];
}

abbrev pub remember : Text → ℕ → DispatchResponse → Market → Market
remember key subject response m = record m {
  commands =
      m.commands
      ++ record { idempotency_key = key; subject_id = subject; response = response } ∷ [];
}

-- INSERT ... ON CONFLICT (driver_offer_id) DO NOTHING
abbrev pub attributed : ℕ → List AttributionRow → Bool
attributed offer [] = false
attributed offer (a ∷ rows) =
    let rest = attributed offer rows in if a.offer_id == offer then true else rest

abbrev pub attribute_once : AttributionRow → List AttributionRow → List AttributionRow
attribute_once row rows = if attributed row.offer_id rows then rows else rows ++ row ∷ []
