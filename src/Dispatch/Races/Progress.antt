-- ===== src/Dispatch/Races/Progress.antt =====
-- services/api/src/modules/dispatch/dispatch-service.ts: an offer that can be accepted is accepted,
-- and a Driver who asks for a break.
use dazat_mobility.Base.{
  ℕ, ◌+◌, Bool, true, false, none, some, ◌==◌, ◌≡◌, ◌≢◌, ◌∙◌, refl, ap, inl, inr, arith, not_after,
  some_of, if◌then◌else◌,
}
use dazat_mobility.Base.Texts.{Text}
use dazat_mobility.Base.Results.{Result, ok, err, require, ◌>>◌, Result-cases}
use dazat_mobility.Booking.Status.{BookingStatus, BookingStatus-discrete, searching_for_driver}
use dazat_mobility.Booking.Store.{BookingRow, first_of}
use dazat_mobility.Dispatch.Availability.{
  DriverAvailabilityStatus, DriverAvailabilityStatus-discrete, DriverOfferStatus, break, offline,
  can_transition_driver_availability,
}
use dazat_mobility.Dispatch.Market.{
  OfferRow, AvailabilityRow, ShiftRow, DispatchResponse, offer_accepted, MessageType, message,
  remember, Market, DispatchError, check_violation, invalid_availability_transition, committed,
  rolled_back, next_id, attributed,
}
use dazat_mobility.Dispatch.Lookup.{
  DispatchActor, InternalEligibility, availability_of, read_driver_eligibility, status_or_offline,
}
use dazat_mobility.Dispatch.Steps.{
  find_offer, BookingDispatchContext, World, append_booking_transition, has_status, is_offered,
  is_unchanged, read_booking_context, store_availability_transition,
}
use dazat_mobility.Dispatch.Shifts.{active_shift, record_driver_shift_availability_event}
use dazat_mobility.Dispatch.Accept.{
  accept_fresh, finish_acceptance, accept_driver_offer, accept_response, acceptance_query, allows,
}
use dazat_mobility.Dispatch.Assigning.{
  assign, assign_driver, attempt_is_offering, is_taken, may_become_assigned, store_assignment,
}
use dazat_mobility.Dispatch.Intent.{
  change_availability, may_become, next_version, proposed, row_is_checked, set_driver_availability,
  store_change, upserted,
}
use dazat_mobility.Dispatch.Claims.{SetDriverAvailabilityRequest, claim_of, set_before}
use dazat_mobility.Dispatch.Exclusive.Offers.{found_again}
use dazat_mobility.Dispatch.Races.Assigned.{IsAssigned, assign-IsAssigned}
use dazat_mobility.Dispatch.Races.Second.{IsFreshCall, fresh_call}
use dazat_mobility.Dispatch.Races.Context.{context_is_current, is_unchanged-some_of}

-- What acceptDriverOffer needs of the tables, and of a Driver with a current shift: the attempt is
-- OFFERING, the offer is OFFERED, has not expired and was disclosed, the booking searches for a
-- Driver, the Driver is eligible for it by the hard filters, neither Driver nor booking has an active
-- assignment, the offer has no outcome, and the Driver is neither OFFLINE nor on a BREAK.
pub record IsAcceptable (world : World) (actor : DispatchActor) (m : Market) (driver : ℕ)
    (o : OfferRow) (booking : BookingDispatchContext) (found : InternalEligibility)
    (row : AvailabilityRow) (shift : ShiftRow) : Type 0 where
  pub lasting : attempt_is_offering m o.attempt_id ≡ true
  pub unanswered : o.status ≡ DriverOfferStatus.offered
  pub current : not_after o.expires_at world.now ≡ false
  pub informed : o.acceptance_allowed ≡ some true
  pub read : read_booking_context world m.store o.booking_id ≡ ok booking
  pub searching : booking.status ≡ searching_for_driver
  pub decided :
      read_driver_eligibility world.registry world.config m world.now driver actor.account_active
        (acceptance_query world o booking)
        booking.requirements
      ≡ ok found
  pub eligible : found.decision.eligible ≡ true
  pub free : is_taken m o.booking_id driver ≡ false
  pub unattributed : attributed o.id m.attributions ≡ false
  pub there : availability_of m driver ≡ some row
  pub not_offline : row.status ≢ offline
  pub not_on_break : row.status ≢ break
  pub on_shift : active_shift m driver ≡ some shift

may_take_work :
    (s : DriverAvailabilityStatus) → s ≢ offline → s ≢ break → may_become_assigned s ≡ true
unfolding may_become_assigned can_transition_driver_availability
may_take_work s online working = ground arith

assign_driver_ends :
    (actor : DispatchActor) (driver : ℕ) (o : OfferRow) (booking : BookingDispatchContext)
    (row : AvailabilityRow) (shift : ShiftRow) (m : Market)
    → may_become_assigned row.status ≡ true
    → active_shift m driver ≡ some shift
    → some_of (is_unchanged booking) m.store.bookings ≡ true
    → (after : Market) × (assign_driver actor driver o booking row m ≡ ok after)
unfolding record_driver_shift_availability_event append_booking_transition
    store_availability_transition store_assignment
assign_driver_ends actor driver o booking row shift m may on_shift current =
    elim (Result-cases (assign_driver actor driver o booking row m)) [
      | inl done ↦ done
      | inr (e, failed) ↦ absurd (ground arith)
    ]

-- With the rows that it asks for, the assignment is made and stored.
assign_ends :
    (actor : DispatchActor) (driver : ℕ) (o : OfferRow) (booking : BookingDispatchContext)
    (b : BookingRow) (row : AvailabilityRow) (shift : ShiftRow) (m : Market)
    → is_taken m o.booking_id driver ≡ false
    → attributed o.id m.attributions ≡ false
    → availability_of m driver ≡ some row
    → may_become_assigned row.status ≡ true
    → active_shift m driver ≡ some shift
    → find_offer m o.id ≡ some o
    → first_of (λ r. r.id == o.booking_id) m.store.bookings ≡ some b
    → is_unchanged booking b ≡ true
    → booking.aggregate_version ≡ b.aggregate_version
    → (after : Market) × (assign actor driver o booking m ≡ ok after)
      × IsAssigned m after (next_id m + 2) driver o b row
unfolding assign
assign_ends actor driver o booking b row shift m free unattributed there may on_shift offered found
      unchanged version =
    let current = is_unchanged-some_of booking o.booking_id m.store.bookings b found unchanged in
    let (after, driven) =
      assign_driver_ends actor driver o booking row shift m may on_shift current in
    let done : assign actor driver o booking m ≡ ok after = rw (free, unattributed, there) driven in
    (
      after,
      done,
      assign-IsAssigned actor driver o booking b row shift m after offered found unchanged version
          there on_shift driven done,
    )

-- The message and the stored response do not touch what the acceptance left.
told-IsAssigned :
    (m done : Market) (assignment driver : ℕ) (o : OfferRow) (b : BookingRow)
    (row : AvailabilityRow) (key : Text) (response : DispatchResponse) (event : MessageType)
    (cause : ℕ)
    → IsAssigned m done assignment driver o b row
    → IsAssigned m
        (remember key driver response (message assignment event cause done))
        assignment
        driver
        o
        b
        row
told-IsAssigned m done assignment driver o b row key response event cause w = record {
  has_assignment = w.has_assignment;
  offer_taken = w.offer_taken;
  attempt_closed = w.attempt_closed;
  booking_moved = w.booking_moved;
  driver_busy = w.driver_busy;
}

is_searching :
    (s : BookingStatus) → s ≡ searching_for_driver → has_status searching_for_driver s ≡ true
unfolding has_status BookingStatus-discrete
is_searching s searching = rw searching refl

-- The call, where what is stored is known.
accept_fresh_commits :
    (world : World) (actor : DispatchActor) (driver : ℕ) (o : OfferRow)
    (booking : BookingDispatchContext) (key : Text) (m : Market) (found : InternalEligibility)
    (row : AvailabilityRow) (shift : ShiftRow) (given : Market)
    → IsAcceptable world actor m driver o booking found row shift
    → assign actor driver o booking m ≡ ok given
    → accept_fresh world actor driver o key m
      ≡ finish_acceptance
          (accept_response (next_id m + 2) o driver world.now)
          (next_id m)
          driver
          key
          given
accept_fresh_commits world actor driver o booking key m found row shift given a done =
    let open_offer : is_offered o.status ≡ true = ap is_offered a.unanswered in
    let allowed : allows o.acceptance_allowed ≡ true = ap allows a.informed in
    let searching = is_searching booking.status a.searching in
    rw (a.lasting, open_offer, a.current, allowed, a.read, searching, a.decided, a.eligible, done)
      refl

-- A Driver with a current shift who accepts an own open offer anew gets the assignment, where the
-- offer, the attempt, the booking and the Driver are as acceptDriverOffer asks: the call commits and
-- returns it, and the tables have one active assignment more, of that Driver and the offer's vehicle
-- to the booking. The offer is then ACCEPTED, its attempt takes no acceptance, the booking is
-- DRIVER_ASSIGNED at its next version and the Driver is ASSIGNED at the next one of the availability.
pub acceptable_offer_is_accepted :
    (world : World) (actor : DispatchActor) (offer : ℕ) (key : Text) (m : Market) (driver : ℕ)
    (o : OfferRow) (booking : BookingDispatchContext) (found : InternalEligibility)
    (row : AvailabilityRow) (shift : ShiftRow)
    → IsFreshCall actor offer key m driver o
    → IsAcceptable world actor m driver o booking found row shift
    → (after : Market) × (accept_driver_offer world actor offer key m
        ≡ committed (ok (accept_response (next_id m + 2) o driver world.now)) after)
      × (b : BookingRow) × (first_of (λ r. r.id == o.booking_id) m.store.bookings ≡ some b)
      × IsAssigned m after (next_id m + 2) driver o b row
acceptable_offer_is_accepted world actor offer key m driver o booking found row shift call a =
    let (b, stored, unchanged, version) =
      context_is_current world m.store o.booking_id booking a.read in
    let (given, done, is_assigned) =
      assign_ends actor driver o booking b row shift m a.free a.unattributed a.there
        (may_take_work row.status a.not_offline a.not_on_break) a.on_shift
        (found_again m offer o call.found) stored unchanged version in
    let response = accept_response (next_id m + 2) o driver world.now in
    (
      remember key driver (offer_accepted response)
          (message response.assignment_id MessageType.driver_assigned (next_id m) given),
      fresh_call world actor offer key m driver o call
          ∙ accept_fresh_commits world actor driver o booking key m found row shift given a done,
      b,
      stored,
      told-IsAssigned m given (next_id m + 2) driver o b row key (offer_accepted response)
          MessageType.driver_assigned (next_id m) is_assigned,
    )

abbrev refusal : Bool → DispatchError
refusal may = if may then check_violation else invalid_availability_transition

guarded_refusal :
    {A : Type 0} (may : Bool) (rest : Result DispatchError A)
    → (require may invalid_availability_transition >> (require false check_violation >> rest))
      ≡ err (refusal may)
guarded_refusal true rest = refl
guarded_refusal false rest = refl

change_to_break :
    (world : World) (actor : DispatchActor) (driver : ℕ) (key : Text) (m : Market)
    → change_availability world actor driver break none key m
      ≡ err (refusal (may_become (status_or_offline (availability_of m driver)) break))
unfolding change_availability proposed row_is_checked DriverAvailabilityStatus-discrete
change_to_break world actor driver key m =
    guarded_refusal (may_become (status_or_offline (availability_of m driver)) break) (
      store_change world actor driver
        (upserted (proposed world driver break (next_version (availability_of m driver)) none)
          (availability_of m driver))
        (availability_of m driver) key m)

claim_for_break :
    (request : SetDriverAvailabilityRequest) → request.status ≡ break → claim_of request ≡ ok none
claim_for_break request asks = rw asks refl

-- What a Driver who asks anew for a break gets: the row that the INSERT proposes has no region and
-- no vehicle, so that the CHECK of the table refuses it, and nothing changes.
pub break_is_refused :
    (world : World) (actor : DispatchActor) (request : SetDriverAvailabilityRequest) (key : Text)
    (m : Market) (driver : ℕ)
    → actor.driver_profile_id ≡ some driver
    → request.status ≡ break
    → set_before m.commands driver key ≡ none
    → set_driver_availability world actor request key m
      ≡ rolled_back (refusal (may_become (status_or_offline (availability_of m driver)) break))
unfolding set_driver_availability
break_is_refused world actor request key m driver known asks unused =
    rw (known, claim_for_break request asks, unused, asks, change_to_break world actor driver key m)
      refl
