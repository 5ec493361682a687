-- ===== src/History/Dispatching.antt =====
-- services/api/src/modules/dispatch/dispatch-service.ts: a transition that Dispatch appends keeps
-- the tables of bookings what their log says.
use dazat_mobility.Base.{
  ℕ, ◌+◌, ◌≤◌, true, some, List, [], ◌∷◌, ◌==◌, ◌≡◌, refl, sym, subst, ap, arith, inl, inr,
  Bool-cases, some_of, same-eq,
}
use dazat_mobility.Base.Texts.{Text}
use dazat_mobility.Base.Results.{ok}
use dazat_mobility.Booking.Status.{
  BookingStatus, BookingStatus-discrete, can_use_canonical_forward_transition,
}
use dazat_mobility.Booking.Store.{BookingRow, TransitionRow, Db, first_of}
use dazat_mobility.Dispatch.Market.{count, Market}
use dazat_mobility.Dispatch.Steps.{
  BookingDispatchContext, append_booking_transition, has_status, is_unchanged,
  store_booking_transition,
}
use dazat_mobility.History.{IsReplayed, has_number}
use dazat_mobility.History.Advancing.{advanced-IsReplayed}

pub has_status-eq :
    (expected status : BookingStatus) → has_status expected status ≡ true → status ≡ expected
unfolding has_status BookingStatus-discrete
has_status-eq expected status h = same-eq BookingStatus-discrete status expected h

is_unchanged-id :
    (context : BookingDispatchContext) (r : BookingRow)
    → is_unchanged context r ≡ true
    → (r.id == context.booking_id) ≡ true
unfolding is_unchanged
is_unchanged-id context r h = ground arith

unchanged_counts :
    (context : BookingDispatchContext) (rows : List BookingRow)
    → some_of (is_unchanged context) rows ≡ true
    → 1 ≤ count (has_number context.booking_id) rows
unchanged_counts context [] h = absurd (ground arith)
unchanged_counts context (r ∷ rows) h =
    ground (arith, is_unchanged-id context r, unchanged_counts context rows)

-- The row of a context that is unchanged, the only one of its booking.
unchanged_row :
    (context : BookingDispatchContext) (rows : List BookingRow)
    → some_of (is_unchanged context) rows ≡ true
    → count (has_number context.booking_id) rows ≤ 1
    → (row : BookingRow) × (first_of (has_number context.booking_id) rows ≡ some row)
      × (is_unchanged context row ≡ true)
unchanged_row context [] h one = absurd (ground arith)
unchanged_row context (r ∷ rows) h one =
    let id_of = is_unchanged-id context r in
    let counts = unchanged_counts context rows in
    elim (Bool-cases (r.id == context.booking_id)) [
      | inl here ↦ (r, rw here refl, ground arith)
      | inr away ↦
          let rest = unchanged_row context rows (ground arith) (ground arith) in
          (rest.0, rw away rest.1, rest.2)
    ]

unchanged_fields :
    (context : BookingDispatchContext) (row : BookingRow)
    → is_unchanged context row ≡ true
    → (row.status ≡ context.status) × (row.aggregate_version ≡ context.aggregate_version)
unfolding is_unchanged
unchanged_fields context row h =
    (has_status-eq context.status row.status (ground arith), ground arith)

-- The entry that appendBookingTransition writes.
abbrev appended : BookingDispatchContext → BookingStatus → ℕ → Text → ℕ → TransitionRow
appended context to actor reason command = record {
  booking_id = context.booking_id;
  from_status = some context.status;
  to_status = to;
  aggregate_version = context.aggregate_version + 1;
  command_id = command;
  actor_id = actor;
  reason_code = reason;
}

store_booking_transition-IsReplayed :
    (context : BookingDispatchContext) (to : BookingStatus) (actor : ℕ) (reason : Text)
    (correlation command : ℕ) (db : Db)
    → can_use_canonical_forward_transition context.status to ≡ true
    → IsReplayed db
    → some_of (is_unchanged context) db.bookings ≡ true
    → IsReplayed (store_booking_transition context to actor reason correlation command db)
unfolding store_booking_transition
store_booking_transition-IsReplayed context to actor reason correlation command db allowed inv
      there =
    let current = unchanged_row context db.bookings there (inv.one_row context.booking_id) in
    let same = unchanged_fields context current.0 current.2 in
    advanced-IsReplayed context.booking_id current.0 to (is_unchanged context)
      (appended context to actor reason command) db
      (store_booking_transition context to actor reason correlation command db)
      (record {
        later = omega arith;
        found = current.1;
        chosen = current.2;
        only = is_unchanged-id context;
        bookings = rw (same.1) refl;
        transitions = refl;
        of_booking = refl;
        from_row = ap some (sym same.0);
        to_status = refl;
        next = rw (same.1) refl;
        allowed = rw (same.0) allowed;
      })
      inv

pub append-IsReplayed :
    (context : BookingDispatchContext) (to : BookingStatus) (actor : ℕ) (reason : Text)
    (correlation command : ℕ) (m after : Market)
    → can_use_canonical_forward_transition context.status to ≡ true
    → IsReplayed m.store
    → append_booking_transition context to actor reason correlation command m ≡ ok after
    → IsReplayed after.store
unfolding append_booking_transition
append-IsReplayed context to actor reason correlation command m after allowed inv h =
    let stored = store_booking_transition context to actor reason correlation command m.store in
    let there : some_of (is_unchanged context) m.store.bookings ≡ true = ground arith in
    let same : stored ≡ after.store = ground arith in
    subst IsReplayed same (
      store_booking_transition-IsReplayed context to actor reason correlation command m.store
        allowed inv there)
