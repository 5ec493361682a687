-- ===== src/Dispatch/Races/Context.antt =====
-- services/api/src/modules/dispatch/dispatch-service.ts: the booking that readBookingContext read is
-- the one that appendBookingTransition updates.
use dazat_mobility.Base.{
  ℕ, true, some, List, [], ◌∷◌, ◌==◌, ◌≡◌, inl, inr, arith, Option-cases, some_of, same_refl, same,
}
use dazat_mobility.Base.Results.{ok}
use dazat_mobility.Booking.Status.{BookingStatus-discrete}
use dazat_mobility.Booking.Store.{BookingRow, Db, first_of}
use dazat_mobility.Dispatch.Steps.{
  BookingDispatchContext, World, has_status, is_unchanged, read_booking_context,
}

pub is_unchanged-some_of :
    (context : BookingDispatchContext) (booking : ℕ) (rows : List BookingRow) (b : BookingRow)
    → first_of (λ r. r.id == booking) rows ≡ some b
    → is_unchanged context b ≡ true
    → some_of (is_unchanged context) rows ≡ true
is_unchanged-some_of context booking [] b found h = absurd (ground arith)
is_unchanged-some_of context booking (r ∷ rows) b found h =
    ground (arith, is_unchanged-some_of context booking rows b)

row_is_unchanged :
    (context : BookingDispatchContext) (b : BookingRow)
    → context.booking_id ≡ b.id
    → context.status ≡ b.status
    → context.aggregate_version ≡ b.aggregate_version
    → is_unchanged context b ≡ true
unfolding is_unchanged has_status BookingStatus-discrete
row_is_unchanged context b i s v =
    let t : same BookingStatus-discrete b.status context.status ≡ true =
      rw s (same_refl BookingStatus-discrete b.status) in
    ground arith

context_fields :
    (world : World) (db : Db) (booking : ℕ) (context : BookingDispatchContext) (b : BookingRow)
    → first_of (λ r. r.id == booking) db.bookings ≡ some b
    → read_booking_context world db booking ≡ ok context
    → (context.booking_id ≡ b.id)
      × (context.status ≡ b.status)
      × (context.aggregate_version ≡ b.aggregate_version)
unfolding read_booking_context
context_fields world db booking context b found h = (ground arith, ground arith, ground arith)

-- The booking of a context that was read is there with its status and version.
pub context_is_current :
    (world : World) (db : Db) (booking : ℕ) (context : BookingDispatchContext)
    → read_booking_context world db booking ≡ ok context
    → (b : BookingRow) × (first_of (λ r. r.id == booking) db.bookings ≡ some b)
      × (is_unchanged context b ≡ true)
      × (context.aggregate_version ≡ b.aggregate_version)
unfolding read_booking_context
context_is_current world db booking context h =
    elim (Option-cases (first_of (λ r. r.id == booking) db.bookings)) [
      | inl gone ↦ absurd (ground arith)
      | inr (b, found) ↦
          let fields = context_fields world db booking context b found h in
          (b, found, row_is_unchanged context b fields.0 fields.1 fields.2, fields.2)
    ]
