-- ===== src/Booking/Store.antt =====
-- services/api/src/modules/booking/booking-service.ts: the tables that its statements read and
-- write (booking.* and pricing.*), and the transaction around them. The identifiers that the
-- database and randomUUID make come from a counter.
use dazat_mobility.Base.{ℕ, Bool, Option, none, some, List, [], ◌∷◌, if◌then◌else◌, Date, Number}
use dazat_mobility.Base.Texts.{Text}
use dazat_mobility.Base.Results.{Result, ok, err}
use dazat_mobility.Booking.Status.{BookingStatus}
use dazat_mobility.Pricing.{QuoteStatus}

-- A location of a request and of a summary; the structured address is a list of keys and texts.
pub record Location : Type 0 where
  pub latitude : Number
  pub longitude : Number
  pub display_label : Text
  pub structured_address : List (Text × Text)
  pub provider_reference : Option Text

pub record BookingSummary : Type 0 where
  pub booking_id : ℕ
  pub status : BookingStatus
  pub aggregate_version : ℕ
  pub region_code : Text
  pub scheduled_for : Option Date
  pub pickup : Location
  pub dropoff : Location

pub record QuoteSummary : Type 0 where
  pub quote_id : ℕ
  pub amount_minor : Number
  pub currency : Text
  pub policy_version : Text
  pub expires_at : Date
  pub non_commercial_development_fixture : Bool

pub record BookingQuoteResult : Type 0 where
  pub booking : BookingSummary
  pub quote : QuoteSummary

pub record FareAgreement : Type 0 where
  pub fare_agreement_id : ℕ
  pub quote_id : ℕ
  pub amount_minor : Number
  pub currency : Text
  pub policy_version : Text
  pub agreed_at : Date

pub record ConfirmBookingResult : Type 0 where
  pub booking : BookingSummary
  pub fare_agreement : FareAgreement

pub record LocationRow : Type 0 where
  pub id : ℕ
  pub location : Location

pub record BookingRow : Type 0 where
  pub id : ℕ
  pub status : BookingStatus
  pub pickup_snapshot_id : ℕ
  pub dropoff_snapshot_id : ℕ
  pub scheduled_for : Option Date
  pub region_code : Text
  pub aggregate_version : ℕ

pub data PartyRole : Type 0 where
  booker passenger payer : PartyRole

pub record PartyRow : Type 0 where
  pub booking_id : ℕ
  pub role : PartyRole
  pub person_id : ℕ

pub record RequirementRow : Type 0 where
  pub booking_id : ℕ
  pub requirement_type : Text
  pub requirement_value : Text

pub record TransitionRow : Type 0 where
  pub booking_id : ℕ
  pub from_status : Option BookingStatus
  pub to_status : BookingStatus
  pub aggregate_version : ℕ
  pub command_id : ℕ
  pub actor_id : ℕ
  pub reason_code : Text

-- A row of rider.rider_profile; whether its status is ACTIVE or LIMITED.
pub record RiderRow : Type 0 where
  pub id : ℕ
  pub person_id : ℕ
  pub active_or_limited : Bool

-- The actor of a request, of AuthenticatedPrincipal.
pub record Principal : Type 0 where
  pub account_id : ℕ
  pub person_id : ℕ
  pub rider_profile_id : Option ℕ

-- A message of either outbox: the aggregate, its version where it has one, and the cause.
pub data EventType : Type 0 where
  booking_created quote_created fare_agreement_created : EventType
  booking_moved_to : BookingStatus → EventType

pub record OutboxRow : Type 0 where
  pub aggregate_id : ℕ
  pub aggregate_version : Option ℕ
  pub event_type : EventType
  pub correlation_id : ℕ
  pub causation_id : ℕ

pub record QuoteRow : Type 0 where
  pub id : ℕ
  pub booking_id : ℕ
  pub status : QuoteStatus
  pub amount_minor : Number
  pub currency : Text
  pub policy_version : Text
  pub expires_at : Date

-- The response that a command stored; the command type is the constructor.
pub data Response : Type 0 where
  created : BookingSummary → Response
  quoted : BookingQuoteResult → Response
  confirmed : ConfirmBookingResult → Response
  quote_made : ℕ → Response
  quote_accepted : FareAgreement → Response

pub record CommandRow : Type 0 where
  pub idempotency_key : Text
  pub booking_id : ℕ
  pub response : Response

-- The tables of commands of booking and of pricing are one list: their command types differ.
pub record Db : Type 0 where
  pub next_id : ℕ
  pub riders : List RiderRow
  pub locations : List LocationRow
  pub bookings : List BookingRow
  pub parties : List PartyRow
  pub requirements : List RequirementRow
  pub transitions : List TransitionRow
  pub outbox : List OutboxRow
  pub quotes : List QuoteRow
  pub agreements : List (ℕ × FareAgreement)
  pub commands : List CommandRow

pub data ServiceError : Type 0 where
  not_found forbidden conflict quote_not_usable : ServiceError
  invalid_transition invalid_location invalid_region invalid_schedule invalid_requirement :
      ServiceError
  invalid_timestamp unique_violation pricing_failed : ServiceError

-- A statement or a sequence of them: what it returns and the tables after it, or what it throws.
abbrev pub Statements : Type 0 → Type 0
Statements A = Db → Result ServiceError (A × Db)

-- A whole service call: the outcome and the tables, which it leaves also when it throws.
abbrev pub Service : Type 0 → Type 0
Service A = Db → Result ServiceError A × Db

abbrev pub settle : {A : Type 0} → Db → Result ServiceError (A × Db) → Result ServiceError A × Db
settle db (ok (a, after)) = (ok a, after)
settle db (err e) = (err e, db)

-- BEGIN, the statements and COMMIT; ROLLBACK where they throw.
unfoldable pub transaction : {A : Type 0} → Statements A → Service A
transaction m db = settle db (m db)

-- `result.rows[0]`, or the error where there is no row.
abbrev pub the_row : {A : Type 0} → ServiceError → Option A → Result ServiceError A
the_row e none = err e
the_row e (some a) = ok a

-- The first row that a SELECT with a test gives.
abbrev pub first_of {ℓ} : {A : Type ℓ} → (A → Bool) → List A → Option A
first_of p [] = none
first_of p (x ∷ xs) = let rest = first_of p xs in if p x then some x else rest

-- UPDATE ... WHERE p.
abbrev pub update_where {ℓ} : {A : Type ℓ} → (A → Bool) → (A → A) → List A → List A
update_where p f [] = []
update_where p f (x ∷ xs) = let rest = update_where p f xs in (if p x then f x else x) ∷ rest
