-- ===== src/History.antt =====
-- services/api/src/modules/booking/booking-service.ts and
-- services/api/src/modules/dispatch/dispatch-service.ts: the log of transitions
-- (booking.booking_state_transition) as the history of the bookings.
pub mod Advancing
pub mod Making
pub mod Bookings
pub mod Creating
pub mod Quoting
pub mod Dispatching
pub mod Commands
pub mod Starting
pub mod Runs
use dazat_mobility.Base.{
  ℕ, ◌+◌, ◌≤◌, ◌<◌, Bool, true, false, ◌&&◌, Option, none, some, List, [], ◌∷◌, ◌++◌, ◌==◌, ◌≡◌,
  ◌∙◌, refl, sym, ltb, if◌then◌else◌, same, same_refl, every, every-imp, every-append, ap, subst,
  arith, inl, inr, Bool-cases, Option-cases,
}
use dazat_mobility.Booking.Status.{
  BookingStatus, BookingStatus-discrete, draft, can_use_canonical_forward_transition,
}
use dazat_mobility.Booking.Store.{BookingRow, TransitionRow, Db, first_of, update_where}
use dazat_mobility.Dispatch.Market.{count}
use dazat_mobility.Dispatch.Counting.{
  count-snoc, count-update_where, every-update_where, first_of-update_where,
  first_of-update_where-none,
}

-- What a log says of a booking: it was not made, it stands at a status and a version, or the log is
-- no history of a booking.
pub data Replay : Type 0 where
  unmade broken : Replay
  standing : BookingStatus → ℕ → Replay

-- One entry: a booking is made as a draft of version 1, and every later entry is a canonical
-- transition from where the booking stands to the next version.
unfoldable pub apply_entry : Option BookingStatus → BookingStatus → ℕ → Replay → Replay
unfolding BookingStatus-discrete can_use_canonical_forward_transition
apply_entry none to version unmade =
    if same BookingStatus-discrete to draft && version == 1 then standing to 1 else broken
apply_entry (some from) to version (standing status v) =
    if same BookingStatus-discrete from status
      && (version == v + 1 && can_use_canonical_forward_transition from to)
    then standing to (v + 1)
    else broken
apply_entry _ to version state = broken

unfoldable pub apply_row : ℕ → TransitionRow → Replay → Replay
unfolding apply_entry
apply_row booking t state =
    if t.booking_id == booking
    then apply_entry t.from_status t.to_status t.aggregate_version state
    else state

unfoldable pub replay_from : Replay → ℕ → List TransitionRow → Replay
unfolding apply_row
replay_from state booking [] = state
replay_from state booking (t ∷ log) = replay_from (apply_row booking t state) booking log

-- The stored status and version of a booking.
abbrev pub state_of_row : Option BookingRow → Replay
state_of_row none = unmade
state_of_row (some row) = standing row.status row.aggregate_version

abbrev pub row_of : Db → ℕ → Option BookingRow
row_of db booking = first_of (λ r. r.id == booking) db.bookings

abbrev pub has_number : ℕ → BookingRow → Bool
has_number booking r = r.id == booking

abbrev pub row_before : ℕ → BookingRow → Bool
row_before n r = ltb r.id n

-- The tables of bookings are what the log says: replaying it gives the status and the version of
-- every booking, and of nothing else.
pub record IsReplayed (db : Db) : Type 0 where
  pub replayed :
      (booking : ℕ) → replay_from unmade booking db.transitions ≡ state_of_row (row_of db booking)
  pub one_row : (booking : ℕ) → count (has_number booking) db.bookings ≤ 1
  pub numbered : every (row_before db.next_id) db.bookings ≡ true

pub replay_from-snoc :
    (state : Replay) (booking : ℕ) (log : List TransitionRow) (t : TransitionRow)
    → replay_from state booking (log ++ t ∷ [])
      ≡ apply_row booking t (replay_from state booking log)
unfolding replay_from
replay_from-snoc state booking [] t = refl
replay_from-snoc state booking (s ∷ log) t =
    replay_from-snoc (apply_row booking s state) booking log t

-- The tables of bookings and their log stay.
pub record Quiet (db after : Db) : Type 0 where
  pub later : db.next_id ≤ after.next_id
  pub bookings : after.bookings ≡ db.bookings
  pub transitions : after.transitions ≡ db.transitions

pub numbered-later :
    (n k : ℕ) (rows : List BookingRow)
    → n ≤ k
    → every (row_before n) rows ≡ true
    → every (row_before k) rows ≡ true
numbered-later n k rows le h = every-imp (row_before n) (row_before k) rows (λ r b. ground arith) h

pub Quiet-IsReplayed : (db after : Db) → Quiet db after → IsReplayed db → IsReplayed after
Quiet-IsReplayed db after q inv = record {
  replayed = λ b. rw (q.transitions, q.bookings) (inv.replayed b);
  one_row = λ b. rw q.bookings (inv.one_row b);
  numbered =
      rw q.bookings (numbered-later db.next_id after.next_id db.bookings q.later inv.numbered);
}

-- The new status and version of the rows of a test.
abbrev pub moved_row : BookingStatus → ℕ → BookingRow → BookingRow
moved_row to version r = record r { status = to; aggregate_version = version }
