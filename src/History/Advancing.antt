-- ===== src/History/Advancing.antt =====
-- booking-service.ts and dispatch-service.ts: a transition of a booking, against its log.
use dazat_mobility.Base.{
  ℕ, ◌+◌, ◌≤◌, Bool, true, false, some, List, [], ◌∷◌, ◌++◌, ◌==◌, ◌≡◌, refl, same_refl, subst,
  arith, inl, inr, Bool-cases,
}
use dazat_mobility.Booking.Status.{
  BookingStatus, BookingStatus-discrete, can_use_canonical_forward_transition,
}
use dazat_mobility.Booking.Store.{BookingRow, TransitionRow, Db, first_of, update_where}
use dazat_mobility.Dispatch.Counting.{count-update_where, every-update_where, first_of-update_where}
use dazat_mobility.History.{
  IsReplayed, Replay, apply_entry, apply_row, has_number, moved_row, numbered-later, replay_from,
  replay_from-snoc, row_before, row_of, standing, state_of_row, unmade,
}

-- A transition of a booking that stands at `from`: its row, found by its identifier, passes the
-- test of the UPDATE, and the log gets the entry.
pub record Advanced (booking : ℕ) (row : BookingRow) (to : BookingStatus) (p : BookingRow → Bool)
    (t : TransitionRow) (db after : Db) : Type 0 where
  pub later : db.next_id ≤ after.next_id
  pub found : row_of db booking ≡ some row
  pub chosen : p row ≡ true
  pub only : (r : BookingRow) → p r ≡ true → (r.id == booking) ≡ true
  pub bookings :
      after.bookings ≡ update_where p (moved_row to (row.aggregate_version + 1)) db.bookings
  pub transitions : after.transitions ≡ db.transitions ++ t ∷ []
  pub of_booking : t.booking_id ≡ booking
  pub from_row : t.from_status ≡ some row.status
  pub to_status : t.to_status ≡ to
  pub next : t.aggregate_version ≡ row.aggregate_version + 1
  pub allowed : can_use_canonical_forward_transition row.status to ≡ true

-- The entry of a canonical transition, applied where its booking stands.
apply_entry-allowed :
    (from to : BookingStatus) (v : ℕ)
    → can_use_canonical_forward_transition from to ≡ true
    → apply_entry (some from) to (v + 1) (standing from v) ≡ standing to (v + 1)
unfolding apply_entry
apply_entry-allowed from to v allowed =
    rw (same_refl BookingStatus-discrete from, allowed) (ground arith)

row_of-other :
    (p : BookingRow → Bool) (f : BookingRow → BookingRow) (booking other : ℕ)
    (rows : List BookingRow)
    → ((r : BookingRow) → (f r).id ≡ r.id)
    → ((r : BookingRow) → p r ≡ true → (r.id == booking) ≡ true)
    → (booking == other) ≡ false
    → first_of (λ r. r.id == other) (update_where p f rows) ≡ first_of (λ r. r.id == other) rows
row_of-other p f booking other [] keeps only different = refl
row_of-other p f booking other (r ∷ rows) keeps only different =
    ground (arith, keeps r, only r, row_of-other p f booking other rows keeps only)

apply_row-here :
    (booking : ℕ) (t : TransitionRow) (from to : BookingStatus) (v : ℕ)
    → t.booking_id ≡ booking
    → t.from_status ≡ some from
    → t.to_status ≡ to
    → t.aggregate_version ≡ v + 1
    → can_use_canonical_forward_transition from to ≡ true
    → apply_row booking t (standing from v) ≡ standing to (v + 1)
unfolding apply_row
apply_row-here booking t from to v of_booking from_row to_status next allowed =
    let here : (t.booking_id == booking) ≡ true = ground arith in
    rw (here, from_row, to_status, next) (apply_entry-allowed from to v allowed)

pub apply_row-other :
    (booking other : ℕ) (t : TransitionRow) (state : Replay)
    → t.booking_id ≡ booking
    → (booking == other) ≡ false
    → apply_row other t state ≡ state
unfolding apply_row
apply_row-other booking other t state of_booking different =
    let away : (t.booking_id == other) ≡ false = ground arith in rw away refl

module _ (booking : ℕ) (row : BookingRow) (to : BookingStatus) (p : BookingRow → Bool)
    (t : TransitionRow) (db after : Db) (a : Advanced booking row to p t db after)
    (inv : IsReplayed db) where
  advanced-row : row_of after booking ≡ some (moved_row to (row.aggregate_version + 1) row)
  advanced-row =
      let updated =
        first_of-update_where (has_number booking) p (moved_row to (row.aggregate_version + 1))
          db.bookings (λ r. refl) row a.found in
      let chosen = a.chosen in rw a.bookings (ground arith)

  advanced-here : replay_from unmade booking after.transitions ≡ state_of_row (row_of after booking)
  advanced-here =
      rw
        (
          advanced-row,
          a.transitions,
          replay_from-snoc unmade booking db.transitions t,
          inv.replayed booking,
          a.found,
        )
        (apply_row-here booking t row.status to row.aggregate_version a.of_booking a.from_row
          a.to_status a.next a.allowed)

  advanced-other :
      (other : ℕ)
      → (booking == other) ≡ false
      → replay_from unmade other after.transitions ≡ state_of_row (row_of after other)
  advanced-other other different =
      rw
        (
          a.transitions,
          replay_from-snoc unmade other db.transitions t,
          apply_row-other booking other t (replay_from unmade other db.transitions) a.of_booking
              different,
          inv.replayed other,
          a.bookings,
          row_of-other p (moved_row to (row.aggregate_version + 1)) booking other db.bookings
              (λ r. refl) a.only different,
        )
        refl

  advanced-replayed :
      (other : ℕ) → replay_from unmade other after.transitions ≡ state_of_row (row_of after other)
  advanced-replayed other = elim (Bool-cases (booking == other)) [
    | inr different ↦ advanced-other other different
    | inl here ↦
        let same_booking : booking ≡ other = ground arith in
        subst (λ b. replay_from unmade b after.transitions ≡ state_of_row (row_of after b))
          same_booking advanced-here
  ]

  pub advanced-IsReplayed : IsReplayed after
  advanced-IsReplayed = record {
    replayed = advanced-replayed;
    one_row = λ b.
        rw
          (
            a.bookings,
            count-update_where (has_number b) p (moved_row to (row.aggregate_version + 1))
                db.bookings (λ r h. refl),
          )
          (inv.one_row b);
    numbered =
        rw
          (
            a.bookings,
            every-update_where (row_before after.next_id) p
                (moved_row to (row.aggregate_version + 1)) db.bookings (λ r. refl),
          )
          (numbered-later db.next_id after.next_id db.bookings a.later inv.numbered);
  }
