-- ===== src/Dispatch/Races.antt =====
-- services/api/src/modules/dispatch/dispatch-service.ts: sequences of the commands of Dispatch, by
-- any Drivers and riders in any order, and two acceptances in the same attempt. Each command is one
-- transaction that locks the rows it changes.
pub mod Context
pub mod Assigned
pub mod Second
pub mod Progress
use dazat_mobility.Base.{
  ℕ, ◌+◌, ◌≤◌, Bool, true, false, not, Option, none, some, List, [], ◌==◌, ◌≡◌, refl, sym, inl, inr,
  if◌then◌else◌, arith, Bool-cases, Option-cases, not_after, ap,
}
use dazat_mobility.Base.Texts.{Text, units}
use dazat_mobility.Base.Results.{Result, ok, err, Result-cases}
use dazat_mobility.Booking.Status.{BookingStatus, driver_assigned}
use dazat_mobility.Booking.Store.{Db}
use dazat_mobility.Dispatch.Availability.{assigned}
use dazat_mobility.Dispatch.Market.{
  ResponseReason, OfferRow, AvailabilityRow, AcceptDriverOfferResult, Market, DispatchError,
  conflict, Ended, committed, rolled_back, settled, next_id, made,
}
use dazat_mobility.Dispatch.Lookup.{
  DispatchActor, InternalEligibility, availability_of, read_driver_eligibility,
}
use dazat_mobility.Dispatch.Steps.{
  BookingDispatchContext, World, append_booking_transition, find_offer, is_offered,
  read_booking_context, store_availability_transition,
}
use dazat_mobility.Dispatch.Shifts.{record_driver_shift_availability_event}
use dazat_mobility.Dispatch.Offers.{decline_driver_offer, list_driver_offers}
use dazat_mobility.Dispatch.Accept.{accept_driver_offer, accept_fresh, acceptance_query}
use dazat_mobility.Dispatch.Assigning.{
  accepted_before, assign, assign_driver, attempt_is_offering, shift_region, shift_vehicle,
  store_assignment,
}
use dazat_mobility.Dispatch.Intent.{set_driver_availability}
use dazat_mobility.Dispatch.Claims.{SetDriverAvailabilityRequest}
use dazat_mobility.Dispatch.Start.{start_booking_dispatch}
use dazat_mobility.Dispatch.Candidates.{Geography}
use dazat_mobility.Dispatch.Exclusive.{
  IsExclusive, accepted_of, open_of, assignments_of, Untouched, Untouched-then,
}
use dazat_mobility.Dispatch.Exclusive.Answers.{append-Untouched, shift-Untouched}
use dazat_mobility.Dispatch.Exclusive.Offers.{
  list_driver_offers-IsExclusive, set_driver_availability-IsExclusive,
  decline_driver_offer-IsExclusive,
}
use dazat_mobility.Dispatch.Exclusive.Acceptance.{accept_driver_offer-IsExclusive}
use dazat_mobility.Dispatch.Exclusive.Start.{start_booking_dispatch-IsExclusive}

-- One command; a command that throws leaves the tables that its transaction left.
pub data Step : Market → Market → Type 0 where
  start :
      {m : Market} (world : World) (geography : Geography) (actor : DispatchActor) (booking : ℕ)
      (key : Text)
      → Step m (settled m (start_booking_dispatch world geography actor booking key m)).1
  list_offers :
      {m : Market} (world : World) (actor : DispatchActor)
      → Step m (settled m (list_driver_offers world actor m)).1
  decline :
      {m : Market} (world : World) (actor : DispatchActor) (offer : ℕ) (reason : ResponseReason)
      (key : Text)
      → Step m (settled m (decline_driver_offer world actor offer reason key m)).1
  accept :
      {m : Market} (world : World) (actor : DispatchActor) (offer : ℕ) (key : Text)
      → Step m (settled m (accept_driver_offer world actor offer key m)).1
  change_availability :
      {m : Market} (world : World) (actor : DispatchActor) (request : SetDriverAvailabilityRequest)
      (key : Text)
      → Step m (settled m (set_driver_availability world actor request key m)).1

-- No attempt, no offer and no assignment yet; bookings and Drivers are there.
pub data Reachable : Market → Type 0 where
  opening : (m : Market) → m.attempts ≡ [] → m.offers ≡ [] → m.assignments ≡ [] → Reachable m
  then_step : {m after : Market} → Reachable m → Step m after → Reachable after

step-IsExclusive : {m after : Market} → Step m after → IsExclusive m → IsExclusive after
step-IsExclusive (start {m} world geography actor booking key) inv =
    start_booking_dispatch-IsExclusive world geography actor booking key m inv
step-IsExclusive (list_offers {m} world actor) inv =
    list_driver_offers-IsExclusive world actor m inv
step-IsExclusive (decline {m} world actor offer reason key) inv =
    decline_driver_offer-IsExclusive world actor offer reason key m inv
step-IsExclusive (accept {m} world actor offer key) inv =
    accept_driver_offer-IsExclusive world actor offer key m inv
step-IsExclusive (change_availability {m} world actor request key) inv =
    set_driver_availability-IsExclusive world actor request key m inv

Reachable-IsExclusive : {m : Market} → Reachable m → IsExclusive m
Reachable-IsExclusive (opening m attempts offers assignments) = record {
  one_winner = λ a. rw (attempts, offers) (omega arith);
  winners_assigned = λ a. rw (offers, assignments) refl;
  one_row = λ i. rw offers (omega arith);
  numbered = rw offers refl;
}
Reachable-IsExclusive (then_step before step) = step-IsExclusive step (Reachable-IsExclusive before)

-- Whatever commands ran in whatever order, an attempt has at most one accepted offer, none while it
-- takes acceptances, and as many assignments as accepted offers.
pub one_acceptance :
    {m : Market}
    → Reachable m
    → (attempt : ℕ)
    → (accepted_of m attempt + open_of m attempt ≤ 1)
      × (assignments_of m attempt ≡ accepted_of m attempt)
one_acceptance reached attempt =
    let inv = Reachable-IsExclusive reached in
    (inv.one_winner attempt, sym (inv.winners_assigned attempt))
