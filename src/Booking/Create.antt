-- ===== src/Booking/Create.antt =====
-- services/api/src/modules/booking/booking-service.ts: the creation of a booking by a Rider.
-- `upper` stands for toUpperCase and `parse_date` for the Date constructor on a text.
pub mod Laws
use dazat_mobility.Base.{
  ℕ, suc, ◌+◌, Bool, true, false, ◌&&◌, ◌||◌, not, Option, none, some, List, [], ◌∷◌, ◌++◌, map,
  ◌==◌, if◌then◌else◌, some_of, is_empty, every, length, leb, ltb, Number, is_finite, less, natural,
  negate, Date, invalid, at,
}
use dazat_mobility.Base.Texts.{Text, trim, text_eq, is_capital, units}
use dazat_mobility.Base.Results.{Result, ok, err, require, ◌>>=◌, ◌>>◌}
use dazat_mobility.Booking.Status.{BookingStatus, draft}
use dazat_mobility.Booking.Store.{
  Location, BookingSummary, LocationRow, BookingRow, PartyRole, booker, passenger, payer, PartyRow,
  RequirementRow, RiderRow, TransitionRow, OutboxRow, booking_created, Response, created,
  CommandRow, Db, Principal, ServiceError, forbidden, invalid_location, invalid_region,
  invalid_schedule, invalid_requirement, Statements, Service, transaction,
}
use dazat_mobility.Booking.Transition.{read_booking_summary}

pub record Requirement : Type 0 where
  pub type : Text
  pub value : Text

pub record CreateRiderBookingRequest : Type 0 where
  pub pickup : Location
  pub dropoff : Location
  pub region_code : Text
  pub scheduled_for : Option Text
  pub requirements : List Requirement

-- !Number.isFinite(x) || x < -bound || x > bound
abbrev outside : ℕ → Number → Bool
outside bound x = not (is_finite x) || less x (negate (natural bound)) || less (natural bound) x

abbrev bad_label : Text → Bool
bad_label label = is_empty label || ltb 500 (length label)

unfoldable pub validate_location : Location → Result ServiceError (Unit {0})
unfolding trim
validate_location l = do
  require (not (outside 90 l.latitude)) invalid_location
  require (not (outside 180 l.longitude)) invalid_location
  require (not (bad_label (trim l.display_label))) invalid_location

-- [A-Z0-9_-]
abbrev is_region_character : ℕ → Bool
is_region_character c = is_capital c || (leb b'0' c && leb c b'9') || c == b'_' || c == b'-'

-- /^[A-Z0-9_-]{2,32}$/
abbrev is_region_code : Text → Bool
is_region_code s = leb 2 (length s) && leb (length s) 32 && every is_region_character s

-- `request.scheduledFor ? new Date(request.scheduledFor) : null`, which must be a valid date.
abbrev valid_schedule : Date → Result ServiceError (Option Date)
valid_schedule invalid = err invalid_schedule
valid_schedule (at t) = ok (some (at t))

unfoldable pub scheduled_date : (Text → Date) → Option Text → Result ServiceError (Option Date)
scheduled_date parse_date none = ok none
scheduled_date parse_date (some []) = ok none
scheduled_date parse_date (some (c ∷ s)) = valid_schedule (parse_date (c ∷ s))

-- The stored location; the identifier is the counter's.
unfoldable pub insert_location_snapshot : Location → Statements ℕ
unfolding trim
insert_location_snapshot l db = do
  validate_location l
  ok (
    db.next_id,
    record db {
      next_id = suc db.next_id;
      locations =
          db.locations
          ++ record {
            id = db.next_id;
            location = record l { display_label = trim l.display_label };
          }
            ∷ [];
    },
  )

abbrev pub bad_type : Text → Bool
bad_type t = is_empty t || ltb 100 (length t)

unfoldable pub insert_requirements : ℕ → List Requirement → Db → Result ServiceError Db
unfolding trim
insert_requirements booking [] db = ok db
insert_requirements booking (r ∷ rs) db =
    require (not (bad_type (trim r.type))) invalid_requirement
    >> insert_requirements booking rs (record db {
      requirements =
          db.requirements
          ++ record {
            booking_id = booking;
            requirement_type = trim r.type;
            requirement_value = r.value;
          }
            ∷ [];
    })

-- The response of an earlier CreateRiderBooking with the key.
abbrev created_of : Response → Option BookingSummary
created_of (created s) = some s
created_of _ = none

unfoldable pub find_created : Text → List CommandRow → Option BookingSummary
unfolding text_eq
find_created key [] = none
find_created key (c ∷ cs) =
    let rest = find_created key cs in
    if text_eq c.idempotency_key key
    then elim (created_of c.response) [ some s ↦ some s | none ↦ rest ]
    else rest

abbrev pub is_eligible_rider : Db → ℕ → ℕ → Bool
is_eligible_rider db rider person =
    some_of (λ r. r.id == rider && (r.person_id == person && r.active_or_limited)) db.riders

abbrev party : ℕ → ℕ → PartyRole → PartyRow
party booking person role = record { booking_id = booking; role = role; person_id = person }

-- INSERT of the booking and of its three parties.
unfoldable pub store_booking : (pickup dropoff : ℕ) → Principal → Text → Option Date → Db → Db
store_booking pickup dropoff actor region scheduled db = record db {
  next_id = suc db.next_id;
  bookings =
      db.bookings
      ++ record {
        id = db.next_id;
        status = draft;
        pickup_snapshot_id = pickup;
        dropoff_snapshot_id = dropoff;
        scheduled_for = scheduled;
        region_code = region;
        aggregate_version = 1;
      }
        ∷ [];
  parties = db.parties ++ map (party db.next_id actor.person_id) (booker ∷ passenger ∷ payer ∷ []);
}

-- INSERT of the first transition and of the message.
unfoldable pub tell_created : (booking command correlation : ℕ) → Principal → Db → Db
tell_created booking command correlation actor db = record db {
  transitions =
      db.transitions
      ++ record {
        booking_id = booking;
        from_status = none;
        to_status = draft;
        aggregate_version = 1;
        command_id = command;
        actor_id = actor.account_id;
        reason_code = units "RIDER_BOOKING_CREATED";
      }
        ∷ [];
  outbox =
      db.outbox
      ++ record {
        aggregate_id = booking;
        aggregate_version = some 1;
        event_type = booking_created;
        correlation_id = correlation;
        causation_id = command;
      }
        ∷ [];
}

-- The summary, and the INSERT of it as the response of the command.
unfoldable pub respond : Text → ℕ → Statements BookingSummary
respond key booking db = do
  summary ← read_booking_summary db booking
  ok (
    summary,
    record db {
      commands =
          db.commands
          ++ record { idempotency_key = key; booking_id = booking; response = created summary }
            ∷ [];
    },
  )

-- The statements after the two locations.
unfoldable pub insert_rest :
    CreateRiderBookingRequest
    → Principal
    → Text
    → Option Date
    → Text
    → (command correlation pickup dropoff : ℕ) → Statements BookingSummary
insert_rest request actor region scheduled key command correlation pickup dropoff db = do
  required ←
      insert_requirements db.next_id request.requirements
        (store_booking pickup dropoff actor region scheduled db)
  respond key db.next_id (tell_created db.next_id command correlation actor required)

-- The statements for a key that is new: the rows of the booking, then its response.
unfoldable pub insert_booking :
    CreateRiderBookingRequest
    → Principal
    → Text
    → Option Date
    → Text
    → (command correlation : ℕ) → Statements BookingSummary
insert_booking request actor region scheduled key command correlation db = do
  p ← insert_location_snapshot request.pickup db
  d ← insert_location_snapshot request.dropoff p.1
  insert_rest request actor region scheduled key command correlation p.0 d.0 d.1

abbrev earlier_or : Option BookingSummary → Statements BookingSummary → Statements BookingSummary
earlier_or none m db = m db
earlier_or (some s) m db = ok (s, db)

-- The statements between BEGIN and COMMIT; an earlier response with the key is returned as it is.
unfoldable pub create_statements :
    CreateRiderBookingRequest
    → Principal
    → ℕ
    → Text
    → Option Date
    → Text
    → Statements BookingSummary
create_statements request actor rider region scheduled key db =
    earlier_or (find_created key db.commands)
      (λ d.
        require (is_eligible_rider d rider actor.person_id) forbidden
        >> insert_booking request actor region scheduled key d.next_id (suc d.next_id)
            (record d { next_id = suc (suc d.next_id) }))
      db

-- What is checked before the transaction: the region code and the schedule of the booking.
unfoldable pub checked_request :
    (Text → Text)
    → (Text → Date)
    → CreateRiderBookingRequest
    → Principal
    → Result ServiceError (ℕ × Text × Option Date)
unfolding trim
checked_request upper parse_date request actor = do
  rider ← elim actor.rider_profile_id [ none ↦ err forbidden | some r ↦ ok r ]
  validate_location request.pickup
  validate_location request.dropoff
  let region = upper (trim request.region_code)
  require (is_region_code region) invalid_region
  scheduled ← scheduled_date parse_date request.scheduled_for
  ok (rider, region, scheduled)

abbrev pub run_checked :
    CreateRiderBookingRequest
    → Principal
    → Text
    → Result ServiceError (ℕ × Text × Option Date)
    → Service BookingSummary
run_checked request actor key (err e) db = (err e, db)
run_checked request actor key (ok (rider, region, scheduled)) db =
    transaction (create_statements request actor rider region scheduled key) db

unfoldable pub create_rider_booking :
    (Text → Text)
    → (Text → Date)
    → CreateRiderBookingRequest
    → Principal
    → Text
    → Service BookingSummary
create_rider_booking upper parse_date request actor key db =
    run_checked request actor key (checked_request upper parse_date request actor) db
