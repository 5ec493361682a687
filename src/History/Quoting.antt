-- ===== src/History/Quoting.antt =====
-- services/api/src/modules/booking/booking-service.ts: quoting and confirming a booking keep the
-- tables of bookings what their log says.
use dazat_mobility.Base.{
  ℕ, suc, Option, none, some, ◌≡◌, refl, subst, arith, inl, inr, Bool-cases, Option-cases, Date,
  ◌⊎◌,
}
use dazat_mobility.Base.Texts.{Text, units}
use dazat_mobility.Base.Results.{Result, ok, err, Result-cases}
use dazat_mobility.Booking.Status.{BookingStatus, draft, awaiting_confirmation}
use dazat_mobility.Booking.Store.{
  BookingSummary, BookingQuoteResult, ConfirmBookingResult, FareAgreement, Db, Principal,
  ServiceError, Service, transaction,
}
use dazat_mobility.Booking.Transition.{transition_booking}
use dazat_mobility.Booking.Quotes.{
  PricedQuote, PricingPort, quote_result, insert_quote, persist_quote, or_else, find_response,
  quote_made_of, quoted_of, confirmed_of, quote_accepted_of, with_key, and_then, remember_quoted,
  price_and_present, quote_from, is_draft, stored_or_booking, quote_rider_booking,
}
use dazat_mobility.Booking.Confirm.{
  store_agreement, accept_statements, accept_quote, next_status, is_awaiting, remember_confirmed,
  accept_and_confirm, confirm_from, confirm_rider_booking,
}
use dazat_mobility.History.{IsReplayed, Quiet, Quiet-IsReplayed}
use dazat_mobility.History.Bookings.{after-settle, transition_booking-IsReplayed}

-- What holds of the tables after two calls in a row.
after-and_then :
    (P : Db → Type 0) {A B : Type 0} (call : Result ServiceError A × Db) (next : A → Service B)
    → P call.1
    → ((a : A) (db : Db) → P db → P (next a db).1)
    → P (and_then call next).1
after-and_then P (ok a, db) next h k = k a db h
after-and_then P (err e, db) next h k = h

insert_quote-Quiet :
    (booking : ℕ) (priced : PricedQuote) (key : Text) (correlation : ℕ) (db : Db) (id : ℕ)
    (after : Db)
    → insert_quote booking priced key correlation db ≡ ok (id, after)
    → Quiet db after
unfolding insert_quote
insert_quote-Quiet booking priced key correlation db id after h = record {
  later = ground arith;
  bookings = ground arith;
  transitions = ground arith;
}

accept_statements-Quiet :
    (booking quote : ℕ) (key : Text) (correlation : ℕ) (now : Date) (db : Db) (f : FareAgreement)
    (after : Db)
    → accept_statements booking quote key correlation now db ≡ ok (f, after)
    → Quiet db after
unfolding accept_statements store_agreement
accept_statements-Quiet booking quote key correlation now db f after h = record {
  later = ground arith;
  bookings = ground arith;
  transitions = ground arith;
}

-- A stored response, or statements that do not touch bookings.
after-or_else :
    {A : Type 0} (stored : Option A) (m : Db → Result ServiceError (A × Db)) (db : Db) (a : A)
    (after : Db)
    → ((b : A) (d : Db) → m db ≡ ok (b, d) → Quiet db d)
    → IsReplayed db
    → or_else stored m db ≡ ok (a, after)
    → IsReplayed after
after-or_else none m db a after quiet inv h = Quiet-IsReplayed db after (quiet a after h) inv
after-or_else (some b) m db a after quiet inv h =
    let same : db ≡ after = ground arith in subst IsReplayed same inv

persist_quote-IsReplayed :
    (booking : ℕ) (priced : PricedQuote) (key : Text) (correlation : ℕ) (db : Db)
    → IsReplayed db
    → IsReplayed (persist_quote booking priced key correlation db).1
unfolding persist_quote transaction
persist_quote-IsReplayed booking priced key correlation db inv =
    let stored = find_response quote_made_of (with_key key) db.commands in
    let m = insert_quote booking priced key correlation in
    after-settle IsReplayed db (or_else stored m db) inv (λ a after h.
      after-or_else stored m db a after
        (λ b d k. insert_quote-Quiet booking priced key correlation db b d k) inv h)

accept_quote-IsReplayed :
    (booking quote : ℕ) (key : Text) (correlation : ℕ) (now : Date) (db : Db)
    → IsReplayed db
    → IsReplayed (accept_quote booking quote key correlation now db).1
unfolding accept_quote transaction
accept_quote-IsReplayed booking quote key correlation now db inv =
    let stored = find_response quote_accepted_of (with_key key) db.commands in
    let m = accept_statements booking quote key correlation now in
    after-settle IsReplayed db (or_else stored m db) inv (λ a after h.
      after-or_else stored m db a after
        (λ b d k. accept_statements-Quiet booking quote key correlation now db b d k) inv h)

counted-IsReplayed : (db : Db) → IsReplayed db → IsReplayed (record db { next_id = suc db.next_id })
counted-IsReplayed db inv =
    Quiet-IsReplayed db (record db { next_id = suc db.next_id })
      (record { later = omega arith; bookings = refl; transitions = refl }) inv

remember_quoted-IsReplayed :
    (key : Text) (booking : ℕ) (r : BookingQuoteResult) (db : Db)
    → IsReplayed db
    → IsReplayed (remember_quoted key booking r db).1
remember_quoted-IsReplayed key booking r db inv =
    elim (Option-cases (find_response quoted_of (with_key key) db.commands)) [
      | inl new ↦
          rw new
            (record { replayed = inv.replayed; one_row = inv.one_row; numbered = inv.numbered })
      | inr (old, known) ↦ rw known inv
    ]

remember_confirmed-IsReplayed :
    (key : Text) (booking : ℕ) (r : ConfirmBookingResult) (db : Db)
    → IsReplayed db
    → IsReplayed (remember_confirmed key booking r db).1
remember_confirmed-IsReplayed key booking r db inv =
    elim (Option-cases (find_response confirmed_of (with_key key) db.commands)) [
      | inl new ↦
          rw new
            (record { replayed = inv.replayed; one_row = inv.one_row; numbered = inv.numbered })
      | inr (old, known) ↦ rw known inv
    ]

price_and_present-IsReplayed :
    (pricing : PricingPort) (booking : ℕ) (actor : Principal) (key : Text) (s : BookingSummary)
    (db : Db)
    → IsReplayed db
    → IsReplayed (price_and_present pricing booking actor key s db).1
unfolding price_and_present
price_and_present-IsReplayed pricing booking actor key s db inv =
    let counted : Db = record db { next_id = suc db.next_id } in
    elim (Result-cases (pricing booking s.region_code s.scheduled_for)) [
      | inr (e, failed) ↦ rw (price_and_present, failed) inv
      | inl (priced, done) ↦
          rw (price_and_present, done)
            (after-and_then IsReplayed (persist_quote booking priced key db.next_id counted) _
              (persist_quote-IsReplayed booking priced key db.next_id counted
                (counted-IsReplayed db inv))
              (λ quote d one.
                after-and_then IsReplayed
                  (transition_booking booking draft BookingStatus.quote_created actor
                    (units "QUOTE_CREATED") db.next_id d)
                  _
                  (transition_booking-IsReplayed booking draft BookingStatus.quote_created actor
                    (units "QUOTE_CREATED") db.next_id d one)
                  (λ t e two.
                    after-and_then IsReplayed
                      (transition_booking booking BookingStatus.quote_created awaiting_confirmation
                        actor (units "QUOTE_PRESENTED") db.next_id e)
                      _
                      (transition_booking-IsReplayed booking BookingStatus.quote_created
                        awaiting_confirmation actor (units "QUOTE_PRESENTED") db.next_id e two)
                      (λ u f three.
                        remember_quoted-IsReplayed key booking (quote_result u quote priced) f
                          three))))
    ]

quote_from-IsReplayed :
    (pricing : PricingPort) (booking : ℕ) (actor : Principal) (key : Text)
    (found : Result ServiceError (BookingQuoteResult ⊎ BookingSummary)) (db : Db)
    → IsReplayed db
    → IsReplayed (quote_from pricing booking actor key found db).1
quote_from-IsReplayed pricing booking actor key (err e) db inv = inv
quote_from-IsReplayed pricing booking actor key (ok (inl r)) db inv = inv
quote_from-IsReplayed pricing booking actor key (ok (inr s)) db inv =
    elim (Bool-cases (is_draft s.status)) [
      | inl drafted ↦
          rw (quote_from, drafted) (price_and_present-IsReplayed pricing booking actor key s db inv)
      | inr later ↦ rw (quote_from, later) inv
    ]

pub quote_rider_booking-IsReplayed :
    (pricing : PricingPort) (booking : ℕ) (actor : Principal) (key : Text) (db : Db)
    → IsReplayed db
    → IsReplayed (quote_rider_booking pricing booking actor key db).1
unfolding quote_rider_booking
quote_rider_booking-IsReplayed pricing booking actor key db inv =
    quote_from-IsReplayed pricing booking actor key
      (stored_or_booking quoted_of booking actor key db) db inv

accept_and_confirm-IsReplayed :
    (booking quote : ℕ) (actor : Principal) (key : Text) (now : Date) (scheduled_for : Option Date)
    (db : Db)
    → IsReplayed db
    → IsReplayed (accept_and_confirm booking quote actor key now scheduled_for db).1
unfolding accept_and_confirm
accept_and_confirm-IsReplayed booking quote actor key now scheduled_for db inv =
    let counted : Db = record db { next_id = suc db.next_id } in
    after-and_then IsReplayed (accept_quote booking quote key db.next_id now counted) _
      (accept_quote-IsReplayed booking quote key db.next_id now counted (counted-IsReplayed db inv))
      (λ agreement d one.
        after-and_then IsReplayed
          (transition_booking booking awaiting_confirmation BookingStatus.confirmed actor
            (units "RIDER_CONFIRMED_QUOTE") db.next_id d)
          _
          (transition_booking-IsReplayed booking awaiting_confirmation BookingStatus.confirmed actor
            (units "RIDER_CONFIRMED_QUOTE") db.next_id d one)
          (λ t e two.
            after-and_then IsReplayed
              (transition_booking booking BookingStatus.confirmed (next_status scheduled_for now)
                actor (units "BOOKING_DISPATCH_READINESS_CLASSIFIED") db.next_id e)
              _
              (transition_booking-IsReplayed booking BookingStatus.confirmed
                (next_status scheduled_for now) actor
                (units "BOOKING_DISPATCH_READINESS_CLASSIFIED") db.next_id e two)
              (λ s f three.
                remember_confirmed-IsReplayed key booking
                  (record { booking = s; fare_agreement = agreement }) f three)))

confirm_from-IsReplayed :
    (booking quote : ℕ) (actor : Principal) (key : Text) (now : Date)
    (found : Result ServiceError (ConfirmBookingResult ⊎ BookingSummary)) (db : Db)
    → IsReplayed db
    → IsReplayed (confirm_from booking quote actor key now found db).1
confirm_from-IsReplayed booking quote actor key now (err e) db inv = inv
confirm_from-IsReplayed booking quote actor key now (ok (inl r)) db inv = inv
confirm_from-IsReplayed booking quote actor key now (ok (inr s)) db inv =
    elim (Bool-cases (is_awaiting s.status)) [
      | inl waiting ↦
          rw (confirm_from, waiting)
            (accept_and_confirm-IsReplayed booking quote actor key now s.scheduled_for db inv)
      | inr other ↦ rw (confirm_from, other) inv
    ]

pub confirm_rider_booking-IsReplayed :
    (booking quote : ℕ) (actor : Principal) (key : Text) (now : Date) (db : Db)
    → IsReplayed db
    → IsReplayed (confirm_rider_booking booking quote actor key now db).1
unfolding confirm_rider_booking
confirm_rider_booking-IsReplayed booking quote actor key now db inv =
    confirm_from-IsReplayed booking quote actor key now
      (stored_or_booking confirmed_of booking actor key db) db inv
