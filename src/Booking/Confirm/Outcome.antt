-- ===== src/Booking/Confirm/Outcome.antt =====
-- The outcome of a confirmation (booking-service.ts, confirmRiderBooking).
use dazat_mobility.Base.{
  ℕ, suc, ◌+◌, ◌<◌, ◌==◌, true, Option, none, some, ◌≡◌, ◌↔◌, refl, sym, subst, ◌∙◌, ap, arith,
  Bool-cases, Option-cases, inl, inr, Date, invalid, at,
}
use dazat_mobility.Base.Texts.{Text, units}
use dazat_mobility.Base.Results.{Result, ok, err, Result-cases}
use dazat_mobility.Booking.Status.{
  BookingStatus, awaiting_confirmation, scheduled, ready_for_dispatch,
}
use dazat_mobility.Booking.Store.{
  BookingSummary, BookingRow, ConfirmBookingResult, Db, first_of, Principal, ServiceError, Service,
}
use dazat_mobility.Booking.Transition.{is_booker, read_booking_summary, transition_booking}
use dazat_mobility.Booking.Transition.Laws.{IsRecorded, transition-IsRecorded}
use dazat_mobility.Booking.Quotes.{
  confirmed_of, find_response, with_key, with_key_of, and_then, stored_or_booking,
}
use dazat_mobility.Booking.Confirm.{
  accept_quote, next_status, is_awaiting, accept_and_confirm, confirm_rider_booking,
  remember_confirmed,
}

-- A sequence that returns: its first call returned, and so did the rest.
and_then-ok :
    {A B : Type 0} (x : Result ServiceError A × Db) (f : A → Service B) (b : B) (after : Db)
    → and_then x f ≡ (ok b, after)
    → (a : A) × (d : Db) × (x ≡ (ok a, d)) × (f a d ≡ (ok b, after))
and_then-ok (ok a, d) f b after h = (a, d, refl, h)
and_then-ok (err e, d) f b after h = absurd (ground arith)

-- The stored response does not touch the bookings.
remembered_bookings :
    (key : Text) (booking : ℕ) (c r : ConfirmBookingResult) (db after : Db)
    → remember_confirmed key booking c db ≡ (ok r, after)
    → db.bookings ≡ after.bookings
remembered_bookings key booking c r db after h =
    elim (Option-cases (find_response confirmed_of (with_key key) db.commands)) [
      | inl new ↦ ground arith
      | inr (c0, old) ↦ ground arith
    ]

-- The stored booking has the status and the version of a summary.
abbrev pub IsStored : ℕ → BookingSummary → Db → Type 0
IsStored booking s db =
    (row : BookingRow) × (first_of (λ r. r.id == booking) db.bookings ≡ some row)
    × (row.status ≡ s.status)
    × (row.aggregate_version ≡ s.aggregate_version)

recorded-IsStored :
    (from to : BookingStatus) (booking : ℕ) (actor : Principal) (reason : Text) (correlation : ℕ)
    (db : Db) (s : BookingSummary) (after : Db)
    → IsRecorded from to booking actor reason correlation db s after
    → IsStored booking s after
recorded-IsStored from to booking actor reason correlation db s after w = (
  record w.row { status = to; aggregate_version = w.row.aggregate_version + 1 },
  w.kept,
  sym w.is_,
  sym w.next,
)

same_bookings-IsStored :
    (booking : ℕ) (s : BookingSummary) (db after : Db)
    → db.bookings ≡ after.bookings
    → IsStored booking s db
    → IsStored booking s after
same_bookings-IsStored booking s db after same (row, found, status, version) =
    (row, rw (← same) found, status, version)

-- The status of the booking after a confirmation, by its schedule.
accepted_and_confirmed :
    (booking quote : ℕ) (actor : Principal) (key : Text) (now : Date) (scheduled_for : Option Date)
    (db : Db) (r : ConfirmBookingResult) (after : Db)
    → accept_and_confirm booking quote actor key now scheduled_for db ≡ (ok r, after)
    → (r.booking.status ≡ next_status scheduled_for now) × IsStored booking r.booking after
unfolding accept_and_confirm
accepted_and_confirmed booking quote actor key now scheduled_for db r after h =
    let correlation = db.next_id in
    let (agreement, d, accepted, h1) =
      and_then-ok
        (accept_quote booking quote key correlation now (record db { next_id = suc db.next_id })) _
        r after h in
    let (s, d1, confirmed, h2) =
      and_then-ok
        (transition_booking booking awaiting_confirmation BookingStatus.confirmed actor
          (units "RIDER_CONFIRMED_QUOTE") correlation d)
        _ r after h1 in
    let (t, d2, moved, h3) =
      and_then-ok
        (transition_booking booking BookingStatus.confirmed (next_status scheduled_for now) actor
          (units "BOOKING_DISPATCH_READINESS_CLASSIFIED") correlation d1)
        _ r after h2 in
    let recorded =
      (transition-IsRecorded BookingStatus.confirmed (next_status scheduled_for now) booking actor
          (units "BOOKING_DISPATCH_READINESS_CLASSIFIED") correlation d1).0
        t d2 moved in
    let same : record { booking = t; fare_agreement = agreement } ≡ r = ground arith in
    let is_t : t ≡ r.booking = ap (λ x. x.booking) same in
    let rows : d2.bookings ≡ after.bookings =
      remembered_bookings key booking (record { booking = t; fare_agreement = agreement }) r d2
        after h3 in
    let stored = same_bookings-IsStored booking t d2 after rows (
      recorded-IsStored BookingStatus.confirmed (next_status scheduled_for now) booking actor
        (units "BOOKING_DISPATCH_READINESS_CLASSIFIED") correlation d1 t d2 recorded.2) in
    (
      ap (λ x. x.status) (sym is_t) ∙ recorded.2.is_,
      subst (λ x. IsStored booking x after) is_t stored,
    )

-- The schedule is a valid date after a valid `now`.
abbrev pub IsAhead : Option Date → Date → Type 0
IsAhead scheduled_for now = (n t : ℕ) × (now ≡ at n) × (scheduled_for ≡ some (at t)) × (n < t)

-- A confirmed booking, by what was read of it before: it is SCHEDULED exactly when its schedule lies
-- ahead, and READY_FOR_DISPATCH exactly when it does not.
pub record IsClassified (s : BookingSummary) (now : Date) (status : BookingStatus) : Type 0 where
  pub was : s.status ≡ awaiting_confirmation
  pub scheduled_iff : (status ≡ scheduled) ↔ IsAhead s.scheduled_for now
  pub ready_iff : (status ≡ ready_for_dispatch) ↔ (¬ IsAhead s.scheduled_for now)

next_status-IsAhead :
    (scheduled_for : Option Date) (now : Date)
    → (next_status scheduled_for now ≡ scheduled ↔ IsAhead scheduled_for now)
      × (next_status scheduled_for now ≡ ready_for_dispatch ↔ (¬ IsAhead scheduled_for now))
next_status-IsAhead none now = ground arith
next_status-IsAhead (some invalid) now = ground arith
next_status-IsAhead (some (at t)) invalid = ground arith
next_status-IsAhead (some (at t)) (at n) = ground arith

-- A confirmation that returns, and has no stored response, was asked for by the booker of a booking
-- that was awaiting confirmation. The booking it returns is SCHEDULED exactly when the schedule that
-- was read lies ahead, and READY_FOR_DISPATCH exactly when it does not, and the stored booking has
-- the status and the version that are returned.
pub confirm_lem :
    (booking quote : ℕ) (actor : Principal) (key : Text) (now : Date) (db : Db)
    (r : ConfirmBookingResult) (after : Db)
    → find_response confirmed_of (with_key_of key booking) db.commands ≡ none
    → confirm_rider_booking booking quote actor key now db ≡ (ok r, after)
    → (is_booker db booking actor.person_id ≡ true)
      × ((s : BookingSummary) × (read_booking_summary db booking ≡ ok s)
          × IsClassified s now r.booking.status)
      × IsStored booking r.booking after
unfolding confirm_rider_booking stored_or_booking
confirm_lem booking quote actor key now db r after new h =
    elim (Bool-cases (is_booker db booking actor.person_id)) [
      | inr stranger ↦ absurd (ground arith)
      | inl owner ↦ elim (Result-cases (read_booking_summary db booking)) [
        | inr (e, fails) ↦ absurd (ground arith)
        | inl (s, read) ↦ elim (Bool-cases (is_awaiting s.status)) [
          | inr other ↦ absurd (ground arith)
          | inl waits ↦
              let (is_next, stored) =
                accepted_and_confirmed booking quote actor key now s.scheduled_for db r after
                  (ground arith) in
              let by_schedule = next_status-IsAhead s.scheduled_for now in
              (
                owner,
                (
                  s,
                  read,
                  record {
                    was = ground arith;
                    scheduled_iff = rw is_next by_schedule.0;
                    ready_iff = rw is_next by_schedule.1;
                  },
                ),
                stored,
              )
        ]
      ]
    ]
