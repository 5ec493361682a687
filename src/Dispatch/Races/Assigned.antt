-- ===== src/Dispatch/Races/Assigned.antt =====
-- services/api/src/modules/dispatch/dispatch-service.ts: what an acceptance leaves in the tables.
use dazat_mobility.Base.{
  ℕ, ◌+◌, Bool, true, false, some, List, [], ◌∷◌, ◌++◌, ◌==◌, ◌≡◌, ◌∙◌, refl, inl, inr, arith,
  Bool-cases,
}
use dazat_mobility.Base.Results.{ok}
use dazat_mobility.Booking.Status.{BookingStatus}
use dazat_mobility.Booking.Store.{BookingRow, first_of, update_where}
use dazat_mobility.Dispatch.Availability.{accepted, assigned, withdrawn}
use dazat_mobility.Dispatch.Market.{
  AssignmentRow, AssignmentStatus, AvailabilityRow, Market, OfferRow, ShiftRow, booking_assigned,
  made, next_id,
}
use dazat_mobility.Dispatch.Lookup.{DispatchActor, availability_of}
use dazat_mobility.Dispatch.Steps.{
  BookingDispatchContext, append_booking_transition, find_offer, is_unchanged,
  store_availability_transition, store_booking_transition,
}
use dazat_mobility.Dispatch.Shifts.{active_shift, record_driver_shift_availability_event}
use dazat_mobility.Dispatch.Assigning.{
  assign, assign_driver, attempt_is_offering, other_offer, store_assignment,
}
use dazat_mobility.Dispatch.Exclusive.Assignment.{assign-Untouched, assignment_closes}

-- An update of rows with one test, where the first row with another test has it as well.
first_of-updated {ℓ} :
    {A : Type ℓ} (p q : A → Bool) (f : A → A) (xs : List A)
    → ((a : A) → p (f a) ≡ p a)
    → (x : A) → first_of p xs ≡ some x
    → q x ≡ true
    → first_of p (update_where q f xs) ≡ some (f x)
first_of-updated p q f [] keeps x h passes = cc
first_of-updated p q f (y ∷ ys) keeps x h passes =
    ground (arith, keeps y, first_of-updated p q f ys keeps x)

-- An update that does not touch the row that is found.
first_of-untouched {ℓ} :
    {A : Type ℓ} (p q : A → Bool) (f : A → A) (xs : List A)
    → ((a : A) → p (f a) ≡ p a)
    → (x : A) → first_of p xs ≡ some x
    → q x ≡ false
    → first_of p (update_where q f xs) ≡ some x
first_of-untouched p q f [] keeps x h passes = cc
first_of-untouched p q f (y ∷ ys) keeps x h passes =
    ground (arith, keeps y, first_of-untouched p q f ys keeps x)

-- The row of the assignment of a Driver to the booking of an offer, with the offer's vehicle.
abbrev pub given : ℕ → ℕ → OfferRow → AssignmentRow
given assignment driver o = record {
  id = assignment;
  attempt_id = o.attempt_id;
  offer_id = o.id;
  booking_id = o.booking_id;
  driver_id = driver;
  vehicle_id = o.vehicle_id;
  status = AssignmentStatus.active;
}

-- What an acceptance leaves: one active assignment more, of the Driver and the vehicle to the
-- booking; the offer is ACCEPTED and its attempt takes no other one; the booking is DRIVER_ASSIGNED
-- at its next version; and the Driver is ASSIGNED at the next version of the availability.
pub record IsAssigned (m after : Market) (assignment driver : ℕ) (o : OfferRow) (b : BookingRow)
    (row : AvailabilityRow) : Type 0 where
  pub has_assignment : after.assignments ≡ m.assignments ++ given assignment driver o ∷ []
  pub offer_taken : find_offer after o.id ≡ some (record o { status = accepted })
  pub attempt_closed : attempt_is_offering after o.attempt_id ≡ false
  pub booking_moved :
      first_of (λ r. r.id == o.booking_id) after.store.bookings
      ≡ some (record b {
        status = BookingStatus.driver_assigned;
        aggregate_version = b.aggregate_version + 1;
      })
  pub driver_busy :
      availability_of after driver
      ≡ some (record row { status = assigned; version = row.version + 1 })

assign_driver_stores :
    (actor : DispatchActor) (driver : ℕ) (o : OfferRow) (booking : BookingDispatchContext)
    (row : AvailabilityRow) (shift : ShiftRow) (m after : Market)
    → active_shift m driver ≡ some shift
    → assign_driver actor driver o booking row m ≡ ok after
    → (after.availability
        ≡ update_where
            (λ r. r.driver_id == driver)
            (λ r. record r { status = assigned; version = row.version + 1 })
            m.availability)
      × (after.store.bookings
          ≡ update_where
              (is_unchanged booking)
              (λ r. record r {
                status = BookingStatus.driver_assigned;
                aggregate_version = booking.aggregate_version + 1;
              })
              m.store.bookings)
unfolding record_driver_shift_availability_event append_booking_transition store_booking_transition
    store_availability_transition store_assignment
assign_driver_stores actor driver o booking row shift m after on_shift h =
    (ground arith, ground arith)

stored_assignment :
    (assignment driver : ℕ) (o : OfferRow) (m : Market)
    → (store_assignment assignment driver o m).assignments
      ≡ m.assignments ++ given assignment driver o ∷ []
unfolding store_assignment
stored_assignment assignment driver o m = refl

-- The row that is found passes the test.
first_of-passes {ℓ} :
    {A : Type ℓ} (p : A → Bool) (xs : List A) (x : A) → first_of p xs ≡ some x → p x ≡ true
first_of-passes p [] x h = cc
first_of-passes p (y ∷ ys) x h = elim (Bool-cases (p y)) [
  | inl yes_ ↦ let eq : y ≡ x = ground arith in rw (← eq) yes_
  | inr no_ ↦ first_of-passes p ys x (ground arith)
]

assignment_offer :
    (assignment driver : ℕ) (o : OfferRow) (m : Market)
    → find_offer m o.id ≡ some o
    → find_offer (store_assignment assignment driver o m) o.id
      ≡ some (record o { status = accepted })
unfolding store_assignment
assignment_offer assignment driver o m found =
    let accept : OfferRow → OfferRow = λ r. record r { status = accepted } in
    let withdraw : OfferRow → OfferRow =
      λ r. record r { status = withdrawn; reason = some booking_assigned } in
    first_of-untouched (λ r. r.id == o.id) (other_offer o) withdraw
      (update_where (λ r. r.id == o.id) accept m.offers) (λ r. refl) (accept o)
      (first_of-updated (λ r. r.id == o.id) (λ r. r.id == o.id) accept m.offers (λ r. refl) o found
        (ground arith))
      (ground arith)

-- The acceptance of an offer whose booking stands as it was read.
pub assign-IsAssigned :
    (actor : DispatchActor) (driver : ℕ) (o : OfferRow) (booking : BookingDispatchContext)
    (b : BookingRow) (row : AvailabilityRow) (shift : ShiftRow) (m after : Market)
    → find_offer m o.id ≡ some o
    → first_of (λ r. r.id == o.booking_id) m.store.bookings ≡ some b
    → is_unchanged booking b ≡ true
    → booking.aggregate_version ≡ b.aggregate_version
    → availability_of m driver ≡ some row
    → active_shift m driver ≡ some shift
    → assign_driver actor driver o booking row m ≡ ok after
    → assign actor driver o booking m ≡ ok after
    → IsAssigned m after (next_id m + 2) driver o b row
assign-IsAssigned actor driver o booking b row shift m after offered found unchanged version there
      on_shift driven h =
    let quiet = assign-Untouched actor driver o booking m after h in
    let (availability, bookings) =
      assign_driver_stores actor driver o booking row shift m after on_shift driven in
    let closes = assignment_closes (next_id m + 2) driver o (made 4 m) o.attempt_id in
    record {
      has_assignment = quiet.assignments ∙ stored_assignment (next_id m + 2) driver o (made 4 m);
      offer_taken = rw quiet.offers (assignment_offer (next_id m + 2) driver o (made 4 m) offered);
      attempt_closed = rw quiet.attempts (ground arith);
      booking_moved =
          rw (bookings, ← version)
            (first_of-updated (λ r. r.id == o.booking_id) (is_unchanged booking)
              (λ r. record r {
                status = BookingStatus.driver_assigned;
                aggregate_version = booking.aggregate_version + 1;
              })
              m.store.bookings (λ r. refl) b found unchanged);
      driver_busy = rw availability (
          first_of-updated (λ r. r.driver_id == driver) (λ r. r.driver_id == driver)
            (λ r. record r { status = assigned; version = row.version + 1 }) m.availability
            (λ r. refl) row there
            (first_of-passes (λ r. r.driver_id == driver) m.availability row there));
    }
