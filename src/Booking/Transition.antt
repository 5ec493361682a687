-- ===== src/Booking/Transition.antt =====
-- services/api/src/modules/booking/booking-service.ts: reading a booking for its booker, and one
-- transition of its status.
pub mod Laws
use dazat_mobility.Base.{
  ℕ, suc, ◌+◌, Bool, true, false, ◌&&◌, ◌||◌, not, Option, none, some, List, [], ◌∷◌, ◌++◌, ◌==◌,
  if◌then◌else◌, some_of, same, is_empty,
}
use dazat_mobility.Base.Texts.{Text}
use dazat_mobility.Base.Results.{Result, ok, err, require, ◌>>=◌, ◌>>◌}
use dazat_mobility.Booking.Status.{
  BookingStatus, BookingStatus-discrete, can_use_canonical_forward_transition,
}
use dazat_mobility.Booking.Store.{
  Location, BookingSummary, LocationRow, BookingRow, PartyRole, booker, PartyRow, TransitionRow,
  OutboxRow, booking_moved_to, Db, Principal, ServiceError, not_found, forbidden, conflict,
  invalid_transition, Statements, Service, transaction, first_of, update_where, the_row,
}

abbrev is_booker_role : PartyRole → Bool
is_booker_role booker = true
is_booker_role _ = false

-- The query of assertBookingBooker finds a row.
unfoldable pub is_booker : Db → ℕ → ℕ → Bool
is_booker db booking person =
    some_of (λ p. p.booking_id == booking && (is_booker_role p.role && p.person_id == person))
      db.parties

-- `reference ? { providerReference: reference } : {}`
abbrev shown_reference : Option Text → Option Text
shown_reference none = none
shown_reference (some t) = if is_empty t then none else some t

abbrev shown : Location → Location
shown l = record l { provider_reference = shown_reference l.provider_reference }

abbrev summary_of : BookingRow → LocationRow → LocationRow → BookingSummary
summary_of b from to = record {
  booking_id = b.id;
  status = b.status;
  aggregate_version = b.aggregate_version;
  region_code = b.region_code;
  scheduled_for = b.scheduled_for;
  pickup = shown from.location;
  dropoff = shown to.location;
}

-- The join of the booking with its two locations.
unfoldable pub read_booking_summary : Db → ℕ → Result ServiceError BookingSummary
read_booking_summary db booking = do
  b ← the_row not_found (first_of (λ r. r.id == booking) db.bookings)
  from ← the_row not_found (first_of (λ l. l.id == b.pickup_snapshot_id) db.locations)
  to ← the_row not_found (first_of (λ l. l.id == b.dropoff_snapshot_id) db.locations)
  ok (summary_of b from to)

-- UPDATE of the booking, INSERT of the transition and of the message.
unfoldable pub store_transition :
    Db → ℕ → BookingRow → BookingStatus → BookingStatus → Principal → Text → ℕ → Db
store_transition db booking row from to actor reason correlation =
    let next = row.aggregate_version + 1 in
    record db {
      next_id = suc db.next_id;
      bookings =
          update_where (λ r. r.id == booking)
            (λ r. record r { status = to; aggregate_version = next }) db.bookings;
      transitions =
          db.transitions
          ++ record {
            booking_id = booking;
            from_status = some from;
            to_status = to;
            aggregate_version = next;
            command_id = db.next_id;
            actor_id = actor.account_id;
            reason_code = reason;
          }
            ∷ [];
      outbox =
          db.outbox
          ++ record {
            aggregate_id = booking;
            aggregate_version = some next;
            event_type = booking_moved_to to;
            correlation_id = correlation;
            causation_id = db.next_id;
          }
            ∷ [];
    }

-- The statements between BEGIN and COMMIT.
unfoldable pub transition_statements :
    ℕ → BookingStatus → BookingStatus → Principal → Text → ℕ → Statements BookingSummary
unfolding BookingStatus-discrete
transition_statements booking from to actor reason correlation db = do
  require (is_booker db booking actor.person_id) forbidden
  row ← the_row not_found (first_of (λ r. r.id == booking) db.bookings)
  require (same BookingStatus-discrete row.status from) conflict
  let after = store_transition db booking row from to actor reason correlation
  summary ← read_booking_summary after booking
  ok (summary, after)

unfoldable pub transition_booking :
    ℕ → BookingStatus → BookingStatus → Principal → Text → ℕ → Service BookingSummary
transition_booking booking from to actor reason correlation db =
    if can_use_canonical_forward_transition from to
    then transaction (transition_statements booking from to actor reason correlation) db
    else (err invalid_transition, db)

-- getRiderBooking: it only reads.
unfoldable get_rider_booking : Db → ℕ → Principal → Result ServiceError BookingSummary
get_rider_booking db booking actor = do
  require (is_booker db booking actor.person_id) forbidden
  read_booking_summary db booking
