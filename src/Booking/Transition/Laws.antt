-- ===== src/Booking/Transition/Laws.antt =====
-- What a transition of a booking does to the tables (booking-service.ts, transitionBooking).
use dazat_mobility.Base.{
  ℕ, ◌+◌, Bool, true, some, List, [], ◌∷◌, ◌++◌, ◌==◌, ◌≡◌, ◌≢◌, refl, inl, inr, arith, Bool-cases,
  Option-cases, same-eq,
}
use dazat_mobility.Base.Texts.{Text}
use dazat_mobility.Base.Results.{Result, ok, err, Result-cases}
use dazat_mobility.Booking.Status.{
  BookingStatus, BookingStatus-discrete, can_use_canonical_forward_transition,
}
use dazat_mobility.Booking.Store.{
  BookingSummary, BookingRow, TransitionRow, OutboxRow, booking_moved_to, Db, Principal,
  ServiceError, settle, transaction, first_of, update_where,
}
use dazat_mobility.Booking.Transition.{
  is_booker, read_booking_summary, store_transition, transition_statements, transition_booking,
}

-- An update that keeps the test changes the row that is found.
first_of-update_where {ℓ} :
    {A : Type ℓ} (p : A → Bool) (f : A → A) (xs : List A)
    → ((a : A) → p (f a) ≡ p a)
    → (x : A) → first_of p xs ≡ some x
    → first_of p (update_where p f xs) ≡ some (f x)
first_of-update_where p f [] keeps x h = cc
first_of-update_where p f (y ∷ ys) keeps x h =
    ground (arith, keeps y, first_of-update_where p f ys keeps x)

summary-eq :
    (db : Db) (booking : ℕ) (row : BookingRow) (s : BookingSummary)
    → first_of (λ r. r.id == booking) db.bookings ≡ some row
    → read_booking_summary db booking ≡ ok s
    → (s.status ≡ row.status) × (s.aggregate_version ≡ row.aggregate_version)
unfolding read_booking_summary
summary-eq db booking row s found h =
    elim (Option-cases (first_of (λ l. l.id == row.pickup_snapshot_id) db.locations)) [
      | inl gone ↦ absurd (ground arith)
      | inr (a, pickup) ↦
          elim (Option-cases (first_of (λ l. l.id == row.dropoff_snapshot_id) db.locations)) [
            | inl gone ↦ absurd (ground arith)
            | inr (b, dropoff) ↦ ground arith
          ]
    ]

-- The outcome of a transaction tells how its statements ended.
pub settle-ok :
    {A : Type 0} (r : Result ServiceError (A × Db)) (db : Db) (a : A) (after : Db)
    → settle db r ≡ (ok a, after)
    → r ≡ ok (a, after)
settle-ok (ok (b, d)) db a after h = ground arith
settle-ok (err e) db a after h = absurd (ground arith)

pub settle-err :
    {A : Type 0} (r : Result ServiceError (A × Db)) (db : Db) (e : ServiceError) (after : Db)
    → settle db r ≡ (err e, after)
    → after ≡ db
settle-err (ok (b, d)) db e after h = absurd (ground arith)
settle-err (err x) db e after h = ground arith

-- What the transition writes for the booking that it found.
pub record Moved (from to : BookingStatus) (booking : ℕ) (actor : Principal) (reason : Text)
    (correlation : ℕ) (db : Db) (s : BookingSummary) (after : Db) : Type 0 where
  pub row : BookingRow
  pub found : first_of (λ r. r.id == booking) db.bookings ≡ some row
  pub was : row.status ≡ from
  pub by_booker : is_booker db booking actor.person_id ≡ true
  pub stored : store_transition db booking row from to actor reason correlation ≡ after
  pub read : read_booking_summary after booking ≡ ok s

module _ (from to : BookingStatus) (booking : ℕ) (actor : Principal) (reason : Text)
    (correlation : ℕ) (db : Db) where
  pub statements-Moved :
      (s : BookingSummary) (after : Db)
      → transition_statements booking from to actor reason correlation db ≡ ok (s, after)
      → Moved from to booking actor reason correlation db s after
  unfolding transition_statements
  statements-Moved s after h = elim (Option-cases (first_of (λ r. r.id == booking) db.bookings)) [
    | inl gone ↦ absurd (ground arith)
    | inr (row, found) ↦
        let next = store_transition db booking row from to actor reason correlation in
        elim (Result-cases (read_booking_summary next booking)) [
          | inr (e, fails) ↦ absurd (ground arith)
          | inl (t, reads) ↦ record {
            row = row;
            found = found;
            was = same-eq BookingStatus-discrete row.status from (ground arith);
            by_booker = ground arith;
            stored = ground arith;
            read = ground arith;
          }
        ]
  ]

-- An update of the row with one identifier does not touch the rows with another one.
first_of-other :
    (f : BookingRow → BookingRow) (rows : List BookingRow) (booking other : ℕ)
    → ((r : BookingRow) → (f r).id ≡ r.id)
    → booking ≢ other
    → first_of (λ r. r.id == other) (update_where (λ r. r.id == booking) f rows)
      ≡ first_of (λ r. r.id == other) rows
first_of-other f [] booking other keeps differ = refl
first_of-other f (r ∷ rows) booking other keeps differ =
    ground (arith, keeps r, first_of-other f rows booking other keeps differ)

-- A transition that was made: the booking was in `from` at some version and is in `to` at the next
-- one, as the summary says, and no other booking has changed. The log has one entry more, of the
-- booking, both statuses, the new version, the account and the reason; the outbox has one message
-- more, on the booking's move to `to` at that version, of the request, caused by the command of the
-- entry.
pub record IsRecorded (from to : BookingStatus) (booking : ℕ) (actor : Principal) (reason : Text)
    (correlation : ℕ) (db : Db) (s : BookingSummary) (after : Db) : Type 0 where
  pub row : BookingRow
  pub found : first_of (λ r. r.id == booking) db.bookings ≡ some row
  pub was : row.status ≡ from
  pub is_ : s.status ≡ to
  pub next : s.aggregate_version ≡ row.aggregate_version + 1
  pub kept :
      first_of (λ r. r.id == booking) after.bookings
      ≡ some (record row { status = to; aggregate_version = row.aggregate_version + 1 })
  pub others :
      (other : ℕ)
      → booking ≢ other
      → first_of (λ r. r.id == other) after.bookings ≡ first_of (λ r. r.id == other) db.bookings
  pub entry : TransitionRow
  pub logged : after.transitions ≡ db.transitions ++ entry ∷ []
  pub entry_booking : entry.booking_id ≡ booking
  pub entry_from : entry.from_status ≡ some from
  pub entry_to : entry.to_status ≡ to
  pub entry_version : entry.aggregate_version ≡ row.aggregate_version + 1
  pub entry_actor : entry.actor_id ≡ actor.account_id
  pub entry_reason : entry.reason_code ≡ reason
  pub told : OutboxRow
  pub sent : after.outbox ≡ db.outbox ++ told ∷ []
  pub told_booking : told.aggregate_id ≡ booking
  pub told_move : told.event_type ≡ booking_moved_to to
  pub told_version : told.aggregate_version ≡ some (row.aggregate_version + 1)
  pub told_request : told.correlation_id ≡ correlation
  pub told_cause : told.causation_id ≡ entry.command_id

moved-IsRecorded :
    (from to : BookingStatus) (booking : ℕ) (actor : Principal) (reason : Text) (correlation : ℕ)
    (db : Db) (s : BookingSummary) (row : BookingRow)
    → first_of (λ r. r.id == booking) db.bookings ≡ some row
    → row.status ≡ from
    → read_booking_summary
        (store_transition db booking row from to actor reason correlation)
        booking
      ≡ ok s
    → IsRecorded from to booking actor reason correlation db s
        (store_transition db booking row from to actor reason correlation)
unfolding store_transition
moved-IsRecorded from to booking actor reason correlation db s row found was read =
    let after = store_transition db booking row from to actor reason correlation in
    let new = record row { status = to; aggregate_version = row.aggregate_version + 1 } in
    let there : first_of (λ r. r.id == booking) after.bookings ≡ some new =
      first_of-update_where (λ r. r.id == booking)
        (λ r. record r { status = to; aggregate_version = row.aggregate_version + 1 }) db.bookings
        (λ r. refl) row found in
    let same = summary-eq after booking new s there read in
    record {
      row = row;
      found = found;
      was = was;
      is_ = same.0;
      next = same.1;
      kept = there;
      others = λ other differ.
          first_of-other
            (λ r. record r { status = to; aggregate_version = row.aggregate_version + 1 })
            db.bookings booking other (λ r. refl) differ;
      entry = record {
        booking_id = booking;
        from_status = some from;
        to_status = to;
        aggregate_version = row.aggregate_version + 1;
        command_id = db.next_id;
        actor_id = actor.account_id;
        reason_code = reason;
      };
      logged = refl;
      entry_booking = refl;
      entry_from = refl;
      entry_to = refl;
      entry_version = refl;
      entry_actor = refl;
      entry_reason = refl;
      told = record {
        aggregate_id = booking;
        aggregate_version = some (row.aggregate_version + 1);
        event_type = booking_moved_to to;
        correlation_id = correlation;
        causation_id = db.next_id;
      };
      sent = refl;
      told_booking = refl;
      told_move = refl;
      told_version = refl;
      told_request = refl;
      told_cause = refl;
    }

module _ (from to : BookingStatus) (booking : ℕ) (actor : Principal) (reason : Text)
    (correlation : ℕ) (db : Db) where
  -- A transition that returns is allowed, was asked for by the booker and is recorded: the booking is
  -- in the new status with its version one higher, no other booking changes, the log gets one entry
  -- with the booking, both statuses, the version, the account and the reason, and the outbox one
  -- message on that move of the booking, caused by the command of the entry. One that throws leaves
  -- every table as it was.
  pub transition-IsRecorded :
      ((s : BookingSummary) (after : Db)
        → transition_booking booking from to actor reason correlation db ≡ (ok s, after)
        → (can_use_canonical_forward_transition from to ≡ true)
          × (is_booker db booking actor.person_id ≡ true)
          × IsRecorded from to booking actor reason correlation db s after)
      × ((e : ServiceError) (after : Db)
          → transition_booking booking from to actor reason correlation db ≡ (err e, after)
          → after ≡ db)
  unfolding transition_booking transaction
  transition-IsRecorded = elim (Bool-cases (can_use_canonical_forward_transition from to)) [
    | inr refused ↦ (λ s after h. absurd (ground arith), λ e after h. ground arith)
    | inl allowed ↦ (
      λ s after h.
          let moved =
            statements-Moved from to booking actor reason correlation db s after
              (settle-ok _ db s after (rw allowed at h)) in
          (
            allowed,
            moved.by_booker,
            rw (← moved.stored) (
                moved-IsRecorded from to booking actor reason correlation db s moved.row moved.found
                  moved.was (rw moved.stored moved.read)),
          ),
      λ e after h. settle-err _ db e after (rw allowed at h),
    )
  ]
