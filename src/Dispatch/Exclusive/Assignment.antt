-- ===== src/Dispatch/Exclusive/Assignment.antt =====
-- services/api/src/modules/dispatch/dispatch-service.ts: the assignment that acceptDriverOffer
-- stores, against the invariant of Dispatch.
use dazat_mobility.Base.{
  ℕ, ◌+◌, ◌≤◌, true, ◌&&◌, not, some, List, [], ◌∷◌, ◌==◌, ◌≡◌, ◌∙◌, refl, inl, inr, if◌then◌else◌,
  every, arith, Bool-cases, Option-cases,
}
use dazat_mobility.Base.Texts.{units}
use dazat_mobility.Base.Results.{ok, Result-cases}
use dazat_mobility.Booking.Status.{BookingStatus}
use dazat_mobility.Booking.Store.{update_where}
use dazat_mobility.Dispatch.Availability.{DriverAvailabilityStatus, assigned, accepted, withdrawn}
use dazat_mobility.Dispatch.Market.{
  AttemptRow, AssignmentRow, AssignmentStatus, DispatchAttemptStatus, OfferRow, booking_assigned,
  AvailabilityRow, Market, next_id, made, count,
}
use dazat_mobility.Dispatch.Lookup.{DispatchActor, availability_of}
use dazat_mobility.Dispatch.Steps.{
  BookingDispatchContext, find_offer, is_offered, store_availability_transition,
}
use dazat_mobility.Dispatch.Shifts.{record_driver_shift_availability_event}
use dazat_mobility.Dispatch.Assigning.{
  assign, assign_driver, attempt_is_offering, offering_in, other_offer, shift_region, shift_vehicle,
  store_assignment,
}
use dazat_mobility.Dispatch.Counting.{
  count-snoc, count-update_where, count-update_one, every-update_where,
}
use dazat_mobility.Dispatch.Exclusive.{
  accepted_in, accepted_of, assigned_in, assignments_of, has_id, made_before, IsExclusive, Kept,
  Untouched, Untouched-Kept, Untouched-then,
}
use dazat_mobility.Dispatch.Exclusive.Answers.{answered, append-Untouched, shift-Untouched}

abbrev assigned_attempt : AttemptRow → AttemptRow
assigned_attempt a = record a { status = DispatchAttemptStatus.assigned }

offering_in-closed :
    (attempts : List AttemptRow) (closed attempt : ℕ)
    → offering_in (update_where (λ a. a.id == closed) assigned_attempt attempts) attempt
      ≡ (not (closed == attempt) && offering_in attempts attempt)
offering_in-closed [] closed attempt = ground arith
offering_in-closed (a ∷ attempts) closed attempt =
    ground (arith, offering_in-closed attempts closed attempt)

-- After an assignment the attempt of the offer takes no acceptance, and the others are as before.
pub assignment_closes :
    (assignment driver : ℕ) (o : OfferRow) (m : Market) (attempt : ℕ)
    → attempt_is_offering (store_assignment assignment driver o m) attempt
      ≡ (not (o.attempt_id == attempt) && attempt_is_offering m attempt)
unfolding store_assignment
assignment_closes assignment driver o m attempt = offering_in-closed m.attempts o.attempt_id attempt

abbrev won : OfferRow → OfferRow
won r = record r { status = accepted }

-- The accepted offers of an attempt after the assignment of an open offer.
assignment_accepts :
    (assignment driver : ℕ) (o : OfferRow) (m : Market) (attempt : ℕ)
    → count (has_id o.id) m.offers ≤ 1
    → find_offer m o.id ≡ some o
    → is_offered o.status ≡ true
    → accepted_of (store_assignment assignment driver o m) attempt
      ≡ accepted_of m attempt + (if o.attempt_id == attempt then 1 else 0)
unfolding store_assignment
assignment_accepts assignment driver o m attempt one found unanswered =
    let winner =
      count-update_one (accepted_in attempt) (λ r. r.id == o.id) won m.offers o one found in
    let others =
      count-update_where (accepted_in attempt) (other_offer o)
        (answered withdrawn (some booking_assigned)) (update_where (λ r. r.id == o.id) won m.offers)
        (λ r h. ground arith) in
    ground arith

abbrev assignment_row : ℕ → ℕ → OfferRow → AssignmentRow
assignment_row assignment driver o = record {
  id = assignment;
  attempt_id = o.attempt_id;
  offer_id = o.id;
  booking_id = o.booking_id;
  driver_id = driver;
  vehicle_id = o.vehicle_id;
  status = AssignmentStatus.active;
}

assignment_adds :
    (assignment driver : ℕ) (o : OfferRow) (m : Market) (attempt : ℕ)
    → assignments_of (store_assignment assignment driver o m) attempt
      ≡ assignments_of m attempt + (if o.attempt_id == attempt then 1 else 0)
unfolding store_assignment
assignment_adds assignment driver o m attempt =
    count-snoc (assigned_in attempt) m.assignments (assignment_row assignment driver o)

assignment_keeps_ids :
    (assignment driver : ℕ) (o : OfferRow) (m : Market) (i : ℕ)
    → count (has_id i) (store_assignment assignment driver o m).offers ≡ count (has_id i) m.offers
unfolding store_assignment
assignment_keeps_ids assignment driver o m i =
    count-update_where (has_id i) (other_offer o) (answered withdrawn (some booking_assigned))
      (update_where (λ r. r.id == o.id) won m.offers) (λ r h. refl)
    ∙ count-update_where (has_id i) (λ r. r.id == o.id) won m.offers (λ r h. refl)

assignment_keeps_numbers :
    (assignment driver : ℕ) (o : OfferRow) (m : Market) (n : ℕ)
    → every (made_before n) (store_assignment assignment driver o m).offers
      ≡ every (made_before n) m.offers
unfolding store_assignment
assignment_keeps_numbers assignment driver o m n =
    every-update_where (made_before n) (other_offer o) (answered withdrawn (some booking_assigned))
      (update_where (λ r. r.id == o.id) won m.offers) (λ r. refl)
    ∙ every-update_where (made_before n) (λ r. r.id == o.id) won m.offers (λ r. refl)

-- The assignment of an open offer of an open attempt keeps the invariant.
pub store_assignment-IsExclusive :
    (assignment driver : ℕ) (o : OfferRow) (m : Market)
    → IsExclusive m
    → find_offer m o.id ≡ some o
    → is_offered o.status ≡ true
    → attempt_is_offering m o.attempt_id ≡ true
    → IsExclusive (store_assignment assignment driver o m)
unfolding store_assignment
store_assignment-IsExclusive assignment driver o m inv found unanswered lasting = record {
  one_winner = λ a.
      let accepts =
        assignment_accepts assignment driver o m a (inv.one_row o.id) found unanswered in
      let closes = assignment_closes assignment driver o m a in
      elim (Bool-cases (o.attempt_id == a)) [
        | inl same_attempt ↦
            let same : o.attempt_id ≡ a = ground arith in
            let before = inv.one_winner a in
            let still : attempt_is_offering m a ≡ true = rw (← same) lasting in
            rw (accepts, closes, same_attempt) (ground arith)
        | inr other ↦
            let before = inv.one_winner a in rw (accepts, closes, other) (omega (arith, before))
      ];
  winners_assigned = λ a.
      let accepts =
        assignment_accepts assignment driver o m a (inv.one_row o.id) found unanswered in
      let added = assignment_adds assignment driver o m a in
      omega (arith, accepts, added, inv.winners_assigned a);
  one_row = λ i. rw (assignment_keeps_ids assignment driver o m i) (inv.one_row i);
  numbered = rw (assignment_keeps_numbers assignment driver o m (next_id m)) inv.numbered;
}

-- Fresh identifiers do not change what the invariant sees.
pub made-Kept : (n : ℕ) (m : Market) → Kept m (made n m)
made-Kept n m =
    Untouched-Kept m (made n m)
      (record { later = omega arith; offers = refl; assignments = refl; attempts = refl })

availability-Untouched :
    (driver : ℕ) (from to : DriverAvailabilityStatus) (version command : ℕ) (m : Market)
    → Untouched m (store_availability_transition driver from to version command m)
unfolding store_availability_transition
availability-Untouched driver from to version command m = record {
  later = omega arith;
  offers = refl;
  assignments = refl;
  attempts = refl;
}

-- What follows the stored assignment does not touch offers, attempts and assignments.
assign_driver-Untouched :
    (actor : DispatchActor) (driver : ℕ) (o : OfferRow) (booking : BookingDispatchContext)
    (row : AvailabilityRow) (m after : Market)
    → assign_driver actor driver o booking row m ≡ ok after
    → Untouched (store_assignment (next_id m + 2) driver o (made 4 m)) after
assign_driver-Untouched actor driver o booking row m after h =
    let stored = store_assignment (next_id m + 2) driver o (made 4 m) in
    let version = row.version + 1 in
    let moved =
      store_availability_transition driver row.status assigned version (next_id m + 3) stored in
    elim (Result-cases (
      record_driver_shift_availability_event driver row.status assigned version
        (shift_region m driver booking.region_code) (shift_vehicle m driver o.vehicle_id)
        (next_id m + 3) moved)) [
          | inr (e, failed) ↦ absurd (ground arith)
          | inl (shifted, done) ↦
              Untouched-then stored moved after
                (availability-Untouched driver row.status assigned version (next_id m + 3) stored)
                (Untouched-then moved shifted after
                  (shift-Untouched driver row.status assigned version
                    (shift_region m driver booking.region_code)
                    (shift_vehicle m driver o.vehicle_id) (next_id m + 3) moved shifted done)
                  (append-Untouched booking BookingStatus.driver_assigned actor.account_id
                    (units "DRIVER_OFFER_ACCEPTED") (next_id m + 1) (next_id m) shifted after
                    (ground arith)))
        ]

pub assign-Untouched :
    (actor : DispatchActor) (driver : ℕ) (o : OfferRow) (booking : BookingDispatchContext)
    (m after : Market)
    → assign actor driver o booking m ≡ ok after
    → Untouched (store_assignment (next_id m + 2) driver o (made 4 m)) after
unfolding assign
assign-Untouched actor driver o booking m after h = elim (Option-cases (availability_of m driver)) [
  | inl gone ↦ absurd (ground arith)
  | inr (row, there) ↦ assign_driver-Untouched actor driver o booking row m after (ground arith)
]
