-- ===== src/History/Bookings.antt =====
-- services/api/src/modules/booking/booking-service.ts: every call of the Booking service keeps the
-- tables of bookings what their log says.
use dazat_mobility.Base.{
  ℕ, ◌+◌, true, some, List, [], ◌∷◌, ◌==◌, ◌≡◌, refl, sym, subst, arith, inl, inr, Bool-cases, ap,
}
use dazat_mobility.Base.Texts.{Text}
use dazat_mobility.Base.Results.{Result, ok, err}
use dazat_mobility.Booking.Status.{BookingStatus, can_use_canonical_forward_transition}
use dazat_mobility.Booking.Store.{
  BookingRow, TransitionRow, Db, Principal, ServiceError, settle, transaction, first_of,
}
use dazat_mobility.Booking.Transition.{store_transition, transition_statements, transition_booking}
use dazat_mobility.Booking.Transition.Laws.{statements-Moved}
use dazat_mobility.History.{IsReplayed}
use dazat_mobility.History.Advancing.{advanced-IsReplayed}

-- What holds of the tables after a transaction.
pub after-settle :
    (P : Db → Type 0) {A : Type 0} (db : Db) (r : Result ServiceError (A × Db))
    → P db
    → ((a : A) (after : Db) → r ≡ ok (a, after) → P after)
    → P (settle db r).1
after-settle P db (ok (a, after)) before h = h a after refl
after-settle P db (err e) before h = before

found_number :
    (rows : List BookingRow) (booking : ℕ) (row : BookingRow)
    → first_of (λ r. r.id == booking) rows ≡ some row
    → (row.id == booking) ≡ true
found_number [] booking row h = absurd (ground arith)
found_number (r ∷ rows) booking row h = ground (arith, found_number rows booking row)

-- The entry that a transition writes.
abbrev entry_of :
    Db → ℕ → BookingRow → BookingStatus → BookingStatus → Principal → Text → TransitionRow
entry_of db booking row from to actor reason = record {
  booking_id = booking;
  from_status = some from;
  to_status = to;
  aggregate_version = row.aggregate_version + 1;
  command_id = db.next_id;
  actor_id = actor.account_id;
  reason_code = reason;
}

store_transition-IsReplayed :
    (db : Db) (booking : ℕ) (row : BookingRow) (from to : BookingStatus) (actor : Principal)
    (reason : Text) (correlation : ℕ)
    → first_of (λ r. r.id == booking) db.bookings ≡ some row
    → row.status ≡ from
    → can_use_canonical_forward_transition from to ≡ true
    → IsReplayed db
    → IsReplayed (store_transition db booking row from to actor reason correlation)
unfolding store_transition
store_transition-IsReplayed db booking row from to actor reason correlation found was allowed inv =
    advanced-IsReplayed booking row to (λ r. r.id == booking)
      (entry_of db booking row from to actor reason) db
      (store_transition db booking row from to actor reason correlation)
      (record {
        later = omega arith;
        found = found;
        chosen = found_number db.bookings booking row found;
        only = λ r h. h;
        bookings = refl;
        transitions = refl;
        of_booking = refl;
        from_row = ap some (sym was);
        to_status = refl;
        next = refl;
        allowed = rw was allowed;
      })
      inv

pub transition_booking-IsReplayed :
    (booking : ℕ) (from to : BookingStatus) (actor : Principal) (reason : Text) (correlation : ℕ)
    (db : Db)
    → IsReplayed db
    → IsReplayed (transition_booking booking from to actor reason correlation db).1
unfolding transition_booking transaction
transition_booking-IsReplayed booking from to actor reason correlation db inv =
    elim (Bool-cases (can_use_canonical_forward_transition from to)) [
      | inr refused ↦ rw refused inv
      | inl allowed ↦ rw allowed (
          after-settle IsReplayed db
            (transition_statements booking from to actor reason correlation db) inv
            (λ s after h.
              let moved = statements-Moved from to booking actor reason correlation db s after h in
              subst IsReplayed moved.stored (
                store_transition-IsReplayed db booking moved.row from to actor reason correlation
                  moved.found moved.was allowed inv)))
    ]
