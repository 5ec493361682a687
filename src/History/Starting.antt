-- ===== src/History/Starting.antt =====
-- services/api/src/modules/dispatch/dispatch-service.ts: setDriverAvailability and
-- startBookingDispatch keep the tables of bookings what their log says.
use dazat_mobility.Base.{
  ℕ, ◌+◌, Option, List, [], ◌∷◌, ◌≡◌, ◌∙◌, refl, sym, subst, arith, inl, inr, Bool-cases,
}
use dazat_mobility.Base.Texts.{Text, units}
use dazat_mobility.Base.Results.{ok, require, after_checks, Result-cases}
use dazat_mobility.Booking.Status.{
  BookingStatus, ready_for_dispatch, searching_for_driver, can_use_canonical_forward_transition,
}
use dazat_mobility.Booking.Transition.{is_booker}
use dazat_mobility.Dispatch.Availability.{DriverAvailabilityStatus}
use dazat_mobility.Dispatch.Market.{
  Market, settled, next_id, made, AvailabilityRow, DriverAvailabilitySummary, StartDispatchResult,
  DispatchAttemptStatus, forbidden, check_violation, invalid_availability_transition,
}
use dazat_mobility.Dispatch.Lookup.{
  DispatchActor, availability_of, read_driver_eligibility, status_or_offline,
}
use dazat_mobility.Dispatch.Steps.{
  BookingDispatchContext, World, answer_and_attribute, append_booking_transition,
  read_booking_context,
}
use dazat_mobility.Dispatch.Shifts.{record_driver_shift_availability_event}
use dazat_mobility.Dispatch.Rules.{
  After-ensure, After-with_row, After-or_rollback, After-or_stored, After-ended_with,
}
use dazat_mobility.Dispatch.Intent.{
  change_availability, may_become, next_version, proposed, row_is_checked, set_driver_availability,
  stops_work, store_change, store_intent, summary_query, upserted, withdraw_offers,
}
use dazat_mobility.Dispatch.Claims.{
  OnlineClaim, SetDriverAvailabilityRequest, check_claim, claim_of, set_before,
}
use dazat_mobility.Dispatch.Start.{
  close_attempt, finish_start, finish_with_offers, finish_without_driver, insert_attempt,
  searching_context, start_booking_dispatch, start_fresh,
}
use dazat_mobility.Dispatch.Candidates.{
  Candidate, Geography, eligible_candidates, raw_candidates, started_before,
}
use dazat_mobility.History.{IsReplayed, Quiet, Quiet-IsReplayed}
use dazat_mobility.History.Dispatching.{append-IsReplayed, has_status-eq}
use dazat_mobility.History.Commands.{Told, shift-Quiet}

store_intent-Quiet :
    (row : AvailabilityRow) (old : Option AvailabilityRow) (command : ℕ) (m : Market)
    → Quiet m.store (store_intent row old command (made 1 m)).store
unfolding store_intent
store_intent-Quiet row old command m = record {
  later = omega arith;
  bookings = refl;
  transitions = refl;
}

withdraw_offers_store :
    (driver : ℕ) (desired : DriverAvailabilityStatus) (m : Market)
    → (withdraw_offers driver desired m).store ≡ m.store
unfolding withdraw_offers answer_and_attribute
withdraw_offers_store driver desired m = elim (Bool-cases (stops_work desired)) [
  | inl stops ↦ rw stops refl
  | inr goes ↦ rw goes refl
]

store_change-Told :
    (world : World) (actor : DispatchActor) (driver : ℕ) (row : AvailabilityRow)
    (old : Option AvailabilityRow) (key : Text) (m : Market) (summary : DriverAvailabilitySummary)
    (after : Market)
    → Told m
    → store_change world actor driver row old key m ≡ ok (summary, after)
    → Told after
unfolding store_change
store_change-Told world actor driver row old key m summary after inv h =
    let stored = store_intent row old (next_id m) (made 1 m) in
    elim (Result-cases (
      record_driver_shift_availability_event driver (status_or_offline old) row.status row.version
        row.region_code row.vehicle_id (next_id m) stored)) [
          | inr (e, failed) ↦ absurd (ground arith)
          | inl (shifted, moved) ↦
              let gone = withdraw_offers driver row.status shifted in
              elim (Result-cases (
                read_driver_eligibility world.registry world.config gone world.now driver
                  actor.account_active (summary_query row) [])) [
                    | inr (e, failed) ↦ absurd (ground arith)
                    | inl (found, read) ↦
                        let same : gone.store ≡ after.store = ground arith in
                        subst IsReplayed
                          (sym (withdraw_offers_store driver row.status shifted) ∙ same)
                          (Quiet-IsReplayed stored.store shifted.store
                            (shift-Quiet driver (status_or_offline old) row.status row.version
                              row.region_code row.vehicle_id (next_id m) stored shifted moved)
                            (Quiet-IsReplayed m.store stored.store
                              (store_intent-Quiet row old (next_id m) m) inv))
                  ]
        ]

change-Told :
    (world : World) (actor : DispatchActor) (driver : ℕ) (desired : DriverAvailabilityStatus)
    (claim : Option OnlineClaim) (key : Text) (m : Market) (summary : DriverAvailabilitySummary)
    (after : Market)
    → Told m
    → change_availability world actor driver desired claim key m ≡ ok (summary, after)
    → Told after
unfolding change_availability
change-Told world actor driver desired claim key m summary after inv h =
    let old = availability_of m driver in
    let row = upserted (proposed world driver desired (next_version old) claim) old in
    store_change-Told world actor driver row old key m summary after inv (
      after_checks
        (require (may_become (status_or_offline old) desired) invalid_availability_transition)
        (check_claim world actor driver (status_or_offline old) claim m)
        (require (row_is_checked (proposed world driver desired (next_version old) claim))
          check_violation)
        (store_change world actor driver row old key m) (summary, after) h)

pub set_driver_availability-Told :
    (world : World) (actor : DispatchActor) (request : SetDriverAvailabilityRequest) (key : Text)
    (m : Market)
    → Told m
    → Told (settled m (set_driver_availability world actor request key m)).1
unfolding set_driver_availability
set_driver_availability-Told world actor request key m inv =
    After-with_row Told m inv actor.driver_profile_id forbidden _ (λ driver known.
      After-or_rollback Told m inv (claim_of request) _ (λ claim claimed.
        After-or_stored Told m inv (set_before m.commands driver key) _ (
          After-ended_with Told m inv
            (change_availability world actor driver request.status claim key m)
            (λ summary after h.
              change-Told world actor driver request.status claim key m summary after inv h))))

insert_attempt_store :
    (attempt : ℕ) (context : BookingDispatchContext) (m tried : Market)
    → insert_attempt attempt context m ≡ ok tried
    → m.store ≡ tried.store
unfolding insert_attempt
insert_attempt_store attempt context m tried h = ground arith

finish_without_driver-Told :
    (actor : DispatchActor) (context : BookingDispatchContext) (command : ℕ) (key : Text)
    (m : Market) (response : StartDispatchResult) (after : Market)
    → Told m
    → finish_without_driver actor context command key m ≡ ok (response, after)
    → Told after
unfolding finish_without_driver can_use_canonical_forward_transition
finish_without_driver-Told actor context command key m response after inv h =
    let closed = close_attempt (command + 2) DispatchAttemptStatus.no_eligible_driver m in
    elim (Result-cases (
      append_booking_transition (searching_context context) BookingStatus.no_eligible_driver
        actor.account_id (units "HARD_FILTER_EXHAUSTED") (command + 1) (command + 3) closed)) [
          | inr (e, failed) ↦ absurd (ground arith)
          | inl (moved, done) ↦
              let same : moved.store ≡ after.store = ground arith in
              subst IsReplayed same (
                append-IsReplayed (searching_context context) BookingStatus.no_eligible_driver
                  actor.account_id (units "HARD_FILTER_EXHAUSTED") (command + 1) (command + 3)
                  closed moved refl inv done)
        ]

finish_with_offers-Told :
    (world : World) (actor : DispatchActor) (context : BookingDispatchContext) (command : ℕ)
    (key : Text) (eligible : List Candidate) (m : Market)
    → Told m
    → Told (finish_with_offers world actor context command key eligible m).1
unfolding finish_with_offers
finish_with_offers-Told world actor context command key eligible m inv =
    Quiet-IsReplayed m.store (finish_with_offers world actor context command key eligible m).1.store
      (record { later = omega arith; bookings = refl; transitions = refl }) inv

finish_start-Told :
    (world : World) (actor : DispatchActor) (context : BookingDispatchContext) (command : ℕ)
    (key : Text) (eligible : List Candidate) (m : Market) (response : StartDispatchResult)
    (after : Market)
    → Told m
    → finish_start world actor context command key eligible m ≡ ok (response, after)
    → Told after
finish_start-Told world actor context command key [] m response after inv h =
    finish_without_driver-Told actor context command key m response after inv h
finish_start-Told world actor context command key (c ∷ eligible) m response after inv h =
    let same : (finish_with_offers world actor context command key (c ∷ eligible) m).1 ≡ after =
      ground arith in
    subst Told same (finish_with_offers-Told world actor context command key (c ∷ eligible) m inv)

start_fresh-Told :
    (world : World) (geography : Geography) (actor : DispatchActor) (booking : ℕ) (key : Text)
    (m : Market) (response : StartDispatchResult) (after : Market)
    → Told m
    → start_fresh world geography actor booking key m ≡ ok (response, after)
    → Told after
unfolding start_fresh can_use_canonical_forward_transition
start_fresh-Told world geography actor booking key m response after inv h =
    elim (Result-cases (read_booking_context world m.store booking)) [
      | inr (e, failed) ↦ absurd (ground arith)
      | inl (context, read) ↦
          let ready : context.status ≡ ready_for_dispatch =
            has_status-eq ready_for_dispatch context.status (ground arith) in
          elim (Result-cases (
            append_booking_transition context searching_for_driver actor.account_id
              (units "DISPATCH_STARTED") (next_id m + 1) (next_id m) (made 4 m))) [
                | inr (e, failed) ↦ absurd (ground arith)
                | inl (moved, done) ↦
                    let moved_told =
                      append-IsReplayed context searching_for_driver actor.account_id
                        (units "DISPATCH_STARTED") (next_id m + 1) (next_id m) (made 4 m) moved
                        (rw ready refl)
                        (Quiet-IsReplayed m.store (made 4 m).store
                          (record { later = omega arith; bookings = refl; transitions = refl }) inv)
                        done in
                    elim (Result-cases (insert_attempt (next_id m + 2) context moved)) [
                      | inr (e, failed) ↦ absurd (ground arith)
                      | inl (tried, inserted) ↦
                          elim (Result-cases (
                            eligible_candidates world context tried
                              (raw_candidates world geography context tried))) [
                                | inr (e, failed) ↦ absurd (ground arith)
                                | inl (eligible, filtered) ↦
                                    finish_start-Told world actor context (next_id m) key eligible
                                      tried response after
                                      (subst IsReplayed
                                        (insert_attempt_store (next_id m + 2) context moved tried
                                          inserted)
                                        moved_told)
                                      (ground arith)
                              ]
                    ]
              ]
    ]

pub start_booking_dispatch-Told :
    (world : World) (geography : Geography) (actor : DispatchActor) (booking : ℕ) (key : Text)
    (m : Market)
    → Told m
    → Told (settled m (start_booking_dispatch world geography actor booking key m)).1
unfolding start_booking_dispatch
start_booking_dispatch-Told world geography actor booking key m inv =
    After-ensure Told m inv (is_booker m.store booking actor.person_id) forbidden _ (λ own.
      After-or_stored Told m inv (started_before m.commands actor.account_id key) _ (
        After-ended_with Told m inv (start_fresh world geography actor booking key m)
          (λ response after h.
            start_fresh-Told world geography actor booking key m response after inv h)))
