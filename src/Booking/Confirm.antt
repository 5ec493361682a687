-- ===== src/Booking/Confirm.antt =====
-- services/api/src/modules/booking/booking-service.ts: accepting a quote and confirming a booking.
-- `now` is the time of the request.
pub mod Laws
pub mod Outcome
use dazat_mobility.Base.{
  ℕ, suc, ◌+◌, Bool, true, false, ◌&&◌, ◌||◌, not, Option, none, some, List, [], ◌∷◌, ◌++◌, ◌==◌,
  if◌then◌else◌, some_of, Number, Date, at, before, ◌⊎◌, inl, inr,
}
use dazat_mobility.Base.Texts.{Text, text_eq, units}
use dazat_mobility.Base.Results.{Result, ok, err, require, ◌>>=◌, ◌>>◌}
use dazat_mobility.Pricing.{QuoteStatus, is_quote_usable, accepted}
use dazat_mobility.Booking.Status.{
  BookingStatus, awaiting_confirmation, scheduled, ready_for_dispatch,
}
use dazat_mobility.Booking.Store.{
  BookingSummary, FareAgreement, ConfirmBookingResult, fare_agreement_created, QuoteRow, Response,
  confirmed, quote_accepted, Db, Principal, ServiceError, conflict, quote_not_usable,
  unique_violation, Statements, Service, transaction, first_of, update_where, the_row,
}
use dazat_mobility.Booking.Transition.{transition_booking}
use dazat_mobility.Booking.Quotes.{
  confirmed_of, quote_accepted_of, find_response, with_key, add_command, add_if_new, or_else,
  and_then, stored_or_booking,
}

abbrev pub agreement_of : ℕ → QuoteRow → Date → FareAgreement
agreement_of id q now = record {
  fare_agreement_id = id;
  quote_id = q.id;
  amount_minor = q.amount_minor;
  currency = q.currency;
  policy_version = q.policy_version;
  agreed_at = now;
}

-- UNIQUE (booking_id) and UNIQUE (quote_id) of pricing.fare_agreement.
abbrev pub agreed : ℕ → ℕ → Db → Bool
agreed booking quote db = some_of (λ a. a.0 == booking || a.1.quote_id == quote) db.agreements

-- INSERT of the agreement, UPDATE of the quote, INSERT of the message and of the response.
unfoldable pub store_agreement : ℕ → QuoteRow → Text → ℕ → Date → Db → Db
store_agreement booking q key correlation now db =
    let command = db.next_id in
    let id = suc db.next_id in
    add_command key booking (quote_accepted (agreement_of id q now)) (record db {
      next_id = suc id;
      agreements = db.agreements ++ (booking, agreement_of id q now) ∷ [];
      quotes = update_where (λ r. r.id == q.id) (λ r. record r { status = accepted }) db.quotes;
      outbox =
          db.outbox
          ++ record {
            aggregate_id = id;
            aggregate_version = none;
            event_type = fare_agreement_created;
            correlation_id = correlation;
            causation_id = command;
          }
            ∷ [];
    })

-- The statements for a key that is new. An offered quote that has expired is set to EXPIRED before the
-- throw, whose ROLLBACK takes that back; so nothing of the update is left to be written here.
unfoldable pub accept_statements : ℕ → ℕ → Text → ℕ → Date → Statements FareAgreement
accept_statements booking quote key correlation now db = do
  q ← the_row quote_not_usable (first_of (λ r. r.id == quote && r.booking_id == booking) db.quotes)
  require (is_quote_usable q.status q.expires_at now) quote_not_usable
  require (not (agreed booking q.id db)) unique_violation
  ok (agreement_of (suc db.next_id) q now, store_agreement booking q key correlation now db)

unfoldable pub accept_quote : ℕ → ℕ → Text → ℕ → Date → Service FareAgreement
unfolding text_eq
accept_quote booking quote key correlation now db =
    transaction
      (or_else (find_response quote_accepted_of (with_key key) db.commands)
        (accept_statements booking quote key correlation now))
      db

abbrev is_ahead : Option Date → Date → Bool
is_ahead none now = false
is_ahead (some d) now = before now d

abbrev pub next_status : Option Date → Date → BookingStatus
next_status scheduled_for now = if is_ahead scheduled_for now then scheduled else ready_for_dispatch

abbrev pub is_awaiting : BookingStatus → Bool
is_awaiting awaiting_confirmation = true
is_awaiting _ = false

abbrev pub remember_confirmed : Text → ℕ → ConfirmBookingResult → Service ConfirmBookingResult
remember_confirmed key booking r db = (
  ok r,
  add_if_new (find_response confirmed_of (with_key key) db.commands) key booking (confirmed r) db,
)

-- Three transactions, each committed before the next one begins.
unfoldable pub accept_and_confirm :
    ℕ → ℕ → Principal → Text → Date → Option Date → Service ConfirmBookingResult
accept_and_confirm booking quote actor key now scheduled_for db =
    let correlation = db.next_id in
    and_then
      (accept_quote booking quote key correlation now (record db { next_id = suc db.next_id }))
      (λ agreement d.
        and_then
          (transition_booking booking awaiting_confirmation BookingStatus.confirmed actor
            (units "RIDER_CONFIRMED_QUOTE") correlation d)
          (λ _ d.
            and_then
              (transition_booking booking BookingStatus.confirmed (next_status scheduled_for now)
                actor (units "BOOKING_DISPATCH_READINESS_CLASSIFIED") correlation d)
              (λ s.
                remember_confirmed key booking
                  (record { booking = s; fare_agreement = agreement }))))

abbrev pub confirm_from :
    ℕ
    → ℕ
    → Principal
    → Text
    → Date
    → Result ServiceError (ConfirmBookingResult ⊎ BookingSummary)
    → Service ConfirmBookingResult
confirm_from booking quote actor key now (err e) db = (err e, db)
confirm_from booking quote actor key now (ok (inl r)) db = (ok r, db)
confirm_from booking quote actor key now (ok (inr s)) db =
    let rest = accept_and_confirm booking quote actor key now s.scheduled_for db in
    elim (is_awaiting s.status) [ true ↦ rest | false ↦ (err conflict, db) ]

unfoldable pub confirm_rider_booking :
    ℕ → ℕ → Principal → Text → Date → Service ConfirmBookingResult
confirm_rider_booking booking quote actor key now db =
    confirm_from booking quote actor key now (stored_or_booking confirmed_of booking actor key db)
      db
