-- ===== src/History/Runs.antt =====
-- services/api/src/modules/booking/booking-service.ts and
-- services/api/src/modules/dispatch/dispatch-service.ts: sequences of the calls of both services, by
-- anyone in any order, on the tables that they share.
use dazat_mobility.Base.{
  ℕ, ◌+◌, ◌≤◌, Bool, true, Option, none, some, List, [], ◌∷◌, ◌≡◌, ◌∙◌, refl, ap, subst, ◌==◌, ◌&&◌,
  false, if◌then◌else◌, same, same-eq, inl, inr, Bool-cases, Date, arith,
}
use dazat_mobility.Base.Texts.{Text}
use dazat_mobility.Booking.Status.{
  BookingStatus, BookingStatus-discrete, draft, can_use_canonical_forward_transition,
}
use dazat_mobility.Booking.Chains.{rank, rank-lt, rank-le-18}
use dazat_mobility.Booking.Store.{TransitionRow, BookingRow, Db, Principal}
use dazat_mobility.Booking.Create.{CreateRiderBookingRequest, create_rider_booking}
use dazat_mobility.Booking.Quotes.{PricingPort, quote_rider_booking}
use dazat_mobility.Booking.Confirm.{confirm_rider_booking}
use dazat_mobility.Dispatch.Market.{ResponseReason, Market, settled}
use dazat_mobility.Dispatch.Lookup.{DispatchActor}
use dazat_mobility.Dispatch.Steps.{World}
use dazat_mobility.Dispatch.Offers.{decline_driver_offer, list_driver_offers}
use dazat_mobility.Dispatch.Accept.{accept_driver_offer}
use dazat_mobility.Dispatch.Intent.{set_driver_availability}
use dazat_mobility.Dispatch.Claims.{SetDriverAvailabilityRequest}
use dazat_mobility.Dispatch.Start.{start_booking_dispatch}
use dazat_mobility.Dispatch.Candidates.{Geography}
use dazat_mobility.History.{
  Replay, apply_entry, apply_row, broken, replay_from, row_of, standing, state_of_row, unmade,
}
use dazat_mobility.History.Creating.{create_rider_booking-IsReplayed}
use dazat_mobility.History.Quoting.{
  quote_rider_booking-IsReplayed, confirm_rider_booking-IsReplayed,
}
use dazat_mobility.History.Commands.{
  Told, accept_driver_offer-Told, decline_driver_offer-Told, list_driver_offers-Told,
}
use dazat_mobility.History.Starting.{set_driver_availability-Told, start_booking_dispatch-Told}

-- The tables of Dispatch with other tables of bookings.
abbrev pub with_store : Market → Db → Market
with_store m db = record m { store = db }

-- One call; one that throws leaves the tables that its transactions left.
pub data Call : Market → Market → Type 0 where
  create :
      {m : Market} (upper : Text → Text) (parse_date : Text → Date)
      (request : CreateRiderBookingRequest) (actor : Principal) (key : Text)
      → Call m (with_store m (create_rider_booking upper parse_date request actor key m.store).1)
  price :
      {m : Market} (pricing : PricingPort) (booking : ℕ) (actor : Principal) (key : Text)
      → Call m (with_store m (quote_rider_booking pricing booking actor key m.store).1)
  confirm :
      {m : Market} (booking quote : ℕ) (actor : Principal) (key : Text) (now : Date)
      → Call m (with_store m (confirm_rider_booking booking quote actor key now m.store).1)
  start :
      {m : Market} (world : World) (geography : Geography) (actor : DispatchActor) (booking : ℕ)
      (key : Text)
      → Call m (settled m (start_booking_dispatch world geography actor booking key m)).1
  list_offers :
      {m : Market} (world : World) (actor : DispatchActor)
      → Call m (settled m (list_driver_offers world actor m)).1
  decline :
      {m : Market} (world : World) (actor : DispatchActor) (offer : ℕ) (reason : ResponseReason)
      (key : Text)
      → Call m (settled m (decline_driver_offer world actor offer reason key m)).1
  accept :
      {m : Market} (world : World) (actor : DispatchActor) (offer : ℕ) (key : Text)
      → Call m (settled m (accept_driver_offer world actor offer key m)).1
  change_availability :
      {m : Market} (world : World) (actor : DispatchActor) (request : SetDriverAvailabilityRequest)
      (key : Text)
      → Call m (settled m (set_driver_availability world actor request key m)).1

-- A run from tables without bookings and without transitions.
pub data Run : Market → Type 0 where
  opening : (m : Market) → m.store.bookings ≡ [] → m.store.transitions ≡ [] → Run m
  then_call : {m after : Market} → Run m → Call m after → Run after

call-Told : {m after : Market} → Call m after → Told m → Told after
call-Told (create {m} upper parse_date request actor key) inv =
    create_rider_booking-IsReplayed upper parse_date request actor key m.store inv
call-Told (price {m} pricing booking actor key) inv =
    quote_rider_booking-IsReplayed pricing booking actor key m.store inv
call-Told (confirm {m} booking quote actor key now) inv =
    confirm_rider_booking-IsReplayed booking quote actor key now m.store inv
call-Told (start {m} world geography actor booking key) inv =
    start_booking_dispatch-Told world geography actor booking key m inv
call-Told (list_offers {m} world actor) inv = list_driver_offers-Told world actor m inv
call-Told (decline {m} world actor offer reason key) inv =
    decline_driver_offer-Told world actor offer reason key m inv
call-Told (accept {m} world actor offer key) inv =
    accept_driver_offer-Told world actor offer key m inv
call-Told (change_availability {m} world actor request key) inv =
    set_driver_availability-Told world actor request key m inv

Run-Told : {m : Market} → Run m → Told m
unfolding replay_from
Run-Told (opening m bookings transitions) = record {
  replayed = λ b. rw (transitions, bookings) refl;
  one_row = λ b. rw bookings (omega arith);
  numbered = rw bookings refl;
}
Run-Told (then_call before call) = call-Told call (Run-Told before)

-- Whatever calls of the two services ran, replaying the log of transitions gives the stored status
-- and version of every booking: a booking that is stored was made once, as a draft of version 1,
-- and came to its status by canonical transitions, each to the next version, and nothing is logged
-- for a booking that is not stored.
pub log_replays_to_bookings :
    {m : Market}
    → Run m
    → (booking : ℕ)
    → replay_from unmade booking m.store.transitions ≡ state_of_row (row_of m.store booking)
log_replays_to_bookings run booking = (Run-Told run).replayed booking

-- A state whose version is at most the place of its status, counted from 1.
abbrev InStep : Replay → Type 0
InStep (standing status version) = version ≤ rank status + 1
InStep _ = Unit

if-InStep :
    (test : Bool) (state : Replay)
    → (test ≡ true → InStep state)
    → InStep (if test then state else broken)
if-InStep true state h = h refl
if-InStep false state h = tt

apply_entry-InStep :
    (from : Option BookingStatus) (to : BookingStatus) (version : ℕ) (state : Replay)
    → InStep state
    → InStep (apply_entry from to version state)
unfolding apply_entry
apply_entry-InStep none to version unmade h =
    if-InStep (same BookingStatus-discrete to draft && version == 1) (standing to 1)
      (λ made. omega arith)
apply_entry-InStep (some from) to version (standing status v) h =
    if-InStep
      (same BookingStatus-discrete from status
        && (version == v + 1 && can_use_canonical_forward_transition from to))
      (standing to (v + 1))
      (λ allowed.
        let before = same-eq BookingStatus-discrete from status (ground arith) in
        let later = rank-lt from to (ground arith) in
        let there : rank from ≡ rank status = ap rank before in omega (arith, later, there, h))
apply_entry-InStep none to version broken h = tt
apply_entry-InStep none to version (standing status v) h = tt
apply_entry-InStep (some from) to version unmade h = tt
apply_entry-InStep (some from) to version broken h = tt

replay_from-InStep :
    (state : Replay) (booking : ℕ) (log : List TransitionRow)
    → InStep state
    → InStep (replay_from state booking log)
unfolding replay_from apply_row
replay_from-InStep state booking [] h = h
replay_from-InStep state booking (t ∷ log) h =
    replay_from-InStep (apply_row booking t state) booking log
      (elim (Bool-cases (t.booking_id == booking)) [
        | inl here ↦
            rw here (apply_entry-InStep t.from_status t.to_status t.aggregate_version state h)
        | inr away ↦ rw away h
      ])

-- Whatever calls ran, the version of a stored booking is at most the place of its status among the
-- canonical statuses, counted from 1: no booking changes its status more than 18 times.
pub versions_end :
    {m : Market}
    → Run m
    → (booking : ℕ) (row : BookingRow) → row_of m.store booking ≡ some row
    → (row.aggregate_version ≤ rank row.status + 1) × (row.aggregate_version ≤ 19)
versions_end {m} run booking row found =
    let log = log_replays_to_bookings run booking in
    let standing_at : replay_from unmade booking m.store.transitions
        ≡ standing row.status row.aggregate_version =
      log ∙ ap state_of_row found in
    let bounded =
      subst InStep standing_at (replay_from-InStep unmade booking m.store.transitions tt) in
    (bounded, omega (arith, bounded, rank-le-18 row.status))
