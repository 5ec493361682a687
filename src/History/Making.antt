-- ===== src/History/Making.antt =====
-- booking-service.ts: a booking that is made, against its log of transitions.
use dazat_mobility.Base.{
  ℕ, ◌≤◌, ◌<◌, true, false, none, some, List, [], ◌∷◌, ◌++◌, ◌==◌, ◌≡◌, refl, if◌then◌else◌, every,
  every-append, subst, arith, inl, inr, Bool-cases,
}
use dazat_mobility.Booking.Status.{draft}
use dazat_mobility.Booking.Store.{BookingRow, TransitionRow, Db, first_of}
use dazat_mobility.Dispatch.Market.{count}
use dazat_mobility.Dispatch.Counting.{count-snoc}
use dazat_mobility.History.{
  IsReplayed, apply_entry, apply_row, has_number, numbered-later, replay_from, replay_from-snoc,
  row_before, row_of, standing, state_of_row, unmade,
}
use dazat_mobility.History.Advancing.{apply_row-other}

-- A booking that was made: a draft of version 1 with a number that was not made yet.
pub record Made (row : BookingRow) (t : TransitionRow) (db after : Db) : Type 0 where
  pub fresh : db.next_id ≤ row.id
  pub made : row.id < after.next_id
  pub is_draft : row.status ≡ draft
  pub first : row.aggregate_version ≡ 1
  pub bookings : after.bookings ≡ db.bookings ++ row ∷ []
  pub transitions : after.transitions ≡ db.transitions ++ t ∷ []
  pub of_booking : t.booking_id ≡ row.id
  pub from_nothing : t.from_status ≡ none
  pub to_draft : t.to_status ≡ draft
  pub version : t.aggregate_version ≡ 1

row_of-append :
    (rows : List BookingRow) (row : BookingRow) (b : ℕ)
    → first_of (has_number b) rows ≡ none
    → first_of (has_number b) (rows ++ row ∷ []) ≡ (if row.id == b then some row else none)
row_of-append [] row b h = ground arith
row_of-append (r ∷ rows) row b h = ground (arith, row_of-append rows row b)

row_of-kept :
    (rows : List BookingRow) (row : BookingRow) (b : ℕ)
    → (row.id == b) ≡ false
    → first_of (has_number b) (rows ++ row ∷ []) ≡ first_of (has_number b) rows
row_of-kept [] row b h = ground arith
row_of-kept (r ∷ rows) row b h = ground (arith, row_of-kept rows row b)

no_row_from :
    (n b : ℕ) (rows : List BookingRow)
    → every (row_before n) rows ≡ true
    → n ≤ b
    → (first_of (has_number b) rows ≡ none) × (count (has_number b) rows ≡ 0)
no_row_from n b [] h le = (refl, refl)
no_row_from n b (r ∷ rows) h le = let rest = no_row_from n b rows in (ground arith, ground arith)

apply_row-made :
    (booking : ℕ) (t : TransitionRow)
    → t.booking_id ≡ booking
    → t.from_status ≡ none
    → t.to_status ≡ draft
    → t.aggregate_version ≡ 1
    → apply_row booking t unmade ≡ standing draft 1
unfolding apply_row apply_entry
apply_row-made booking t of_booking from_nothing to_draft version =
    let here : (t.booking_id == booking) ≡ true = ground arith in
    rw (here, from_nothing, to_draft, version) refl

module _ (row : BookingRow) (t : TransitionRow) (db after : Db) (a : Made row t db after)
    (inv : IsReplayed db) where
  made-here : replay_from unmade row.id after.transitions ≡ state_of_row (row_of after row.id)
  made-here =
      let fresh = no_row_from db.next_id row.id db.bookings inv.numbered a.fresh in
      let self : (row.id == row.id) ≡ true = ground arith in
      rw
        (
          a.bookings,
          row_of-append db.bookings row row.id fresh.0,
          self,
          a.transitions,
          replay_from-snoc unmade row.id db.transitions t,
          inv.replayed row.id,
          fresh.0,
          apply_row-made row.id t a.of_booking a.from_nothing a.to_draft a.version,
          a.is_draft,
          a.first,
        )
        refl

  made-other :
      (other : ℕ)
      → (row.id == other) ≡ false
      → replay_from unmade other after.transitions ≡ state_of_row (row_of after other)
  made-other other different =
      rw
        (
          a.bookings,
          row_of-kept db.bookings row other different,
          a.transitions,
          replay_from-snoc unmade other db.transitions t,
          apply_row-other row.id other t (replay_from unmade other db.transitions) a.of_booking
              different,
        )
        (inv.replayed other)

  made-replayed :
      (other : ℕ) → replay_from unmade other after.transitions ≡ state_of_row (row_of after other)
  made-replayed other = elim (Bool-cases (row.id == other)) [
    | inr different ↦ made-other other different
    | inl here ↦
        let same_booking : row.id ≡ other = ground arith in
        subst (λ b. replay_from unmade b after.transitions ≡ state_of_row (row_of after b))
          same_booking made-here
  ]

  made-one_row : (b : ℕ) → count (has_number b) after.bookings ≤ 1
  made-one_row b =
      let old = inv.one_row b in
      let fresh = a.fresh in
      let none_of : db.next_id ≤ b → count (has_number b) db.bookings ≡ 0 =
        λ le. (no_row_from db.next_id b db.bookings inv.numbered le).1 in
      rw (a.bookings, count-snoc (has_number b) db.bookings row) (ground arith)

  pub made-IsReplayed : IsReplayed after
  made-IsReplayed = record {
    replayed = made-replayed;
    one_row = made-one_row;
    numbered = rw a.bookings (
        every-append (row_before after.next_id) db.bookings (row ∷ [])
          (numbered-later db.next_id after.next_id db.bookings (omega (arith, a.fresh, a.made))
            inv.numbered)
          (let made = a.made in ground arith));
  }
