-- ===== src/Dispatch/Start.antt =====
-- services/api/src/modules/dispatch/dispatch-service.ts: startBookingDispatch and
-- getBookingDispatchProjection. The candidate snapshots are not kept: no statement reads them.
use dazat_mobility.Base.{
  ℕ, ◌+◌, ◌&&◌, Option, none, some, List, [], ◌∷◌, ◌++◌, ◌==◌, if◌then◌else◌, length, some_of,
}
use dazat_mobility.Base.Texts.{Text, units}
use dazat_mobility.Base.Results.{Result, ok, err, require, ◌>>=◌, ◌>>◌}
use dazat_mobility.Booking.Status.{BookingStatus, ready_for_dispatch, searching_for_driver}
use dazat_mobility.Booking.Store.{first_of, update_where}
use dazat_mobility.Booking.Transition.{is_booker}
use dazat_mobility.Dispatch.Market.{
  DispatchAttemptStatus, searching, offering, AttemptRow, AssignmentRow, offer_wave_created,
  StartDispatchResult, dispatch_started, Market, DispatchError, not_found, forbidden, conflict,
  unique_violation, Ended, ensure, next_id, made, message, remember,
}
use dazat_mobility.Dispatch.Lookup.{DispatchActor, is_active_status}
use dazat_mobility.Dispatch.Steps.{
  BookingDispatchContext, World, append_booking_transition, has_status, read_booking_context,
  row_or,
}
use dazat_mobility.Dispatch.Offers.{or_stored}
use dazat_mobility.Dispatch.Intent.{ended_with}
use dazat_mobility.Dispatch.Candidates.{
  Candidate, Geography, eligible_candidates, first_n, offer_wave, raw_candidates, started_before,
}

abbrev pub close_attempt : ℕ → DispatchAttemptStatus → Market → Market
close_attempt attempt status m = record m {
  attempts = update_where (λ a. a.id == attempt) (λ a. record a { status = status }) m.attempts;
}

abbrev start_response : ℕ → BookingStatus → ℕ → DispatchAttemptStatus → ℕ → ℕ → StartDispatchResult
start_response booking status attempt dispatch eligible offered = record {
  booking_id = booking;
  booking_status = status;
  attempt_id = attempt;
  dispatch_status = dispatch;
  eligible_candidate_count = eligible;
  offered_driver_count = offered;
}

abbrev pub attempt_row : ℕ → BookingDispatchContext → AttemptRow
attempt_row attempt context = record {
  id = attempt;
  booking_id = context.booking_id;
  booking_version = context.aggregate_version + 1;
  status = searching;
  region_code = context.region_code;
}

-- INSERT of the attempt; (booking_id, attempt_number) is unique and the number is always 1.
unfoldable pub insert_attempt : ℕ → BookingDispatchContext → Market → Result DispatchError Market
insert_attempt attempt context m =
    if some_of (λ a. a.booking_id == context.booking_id) m.attempts
    then err unique_violation
    else ok (record m { attempts = m.attempts ++ attempt_row attempt context ∷ [] })

abbrev pub searching_context : BookingDispatchContext → BookingDispatchContext
searching_context context = record context {
  status = searching_for_driver;
  aggregate_version = context.aggregate_version + 1;
}

-- The end of the call without an eligible candidate.
unfoldable pub finish_without_driver :
    DispatchActor
    → BookingDispatchContext
    → ℕ
    → Text
    → Market
    → Result DispatchError (StartDispatchResult × Market)
unfolding append_booking_transition
finish_without_driver actor context command key m = do
  let attempt = command + 2
  let response =
      start_response context.booking_id BookingStatus.no_eligible_driver attempt
        DispatchAttemptStatus.no_eligible_driver 0 0
  moved ←
      append_booking_transition (searching_context context) BookingStatus.no_eligible_driver
        actor.account_id (units "HARD_FILTER_EXHAUSTED") (command + 1) (command + 3)
        (close_attempt attempt DispatchAttemptStatus.no_eligible_driver m)
  ok (response, remember key actor.account_id (dispatch_started response) moved)

-- The offers of the wave, the attempt, the message and the stored response.
unfoldable pub finish_with_offers :
    World
    → DispatchActor
    → BookingDispatchContext
    → ℕ
    → Text
    → List Candidate
    → Market
    → StartDispatchResult × Market
unfolding offer_wave
finish_with_offers world actor context command key eligible m =
    let attempt = command + 2 in
    let wave =
      offer_wave world context attempt (next_id m)
        (first_n world.config.offer_wave_size eligible) in
    let response =
      start_response context.booking_id searching_for_driver attempt offering (length eligible)
        (length wave) in
    (
      response,
      remember key actor.account_id (dispatch_started response) (
          message attempt offer_wave_created command (
            close_attempt attempt offering
              (made (length wave) (record m { offers = m.offers ++ wave })))),
    )

abbrev pub finish_start :
    World
    → DispatchActor
    → BookingDispatchContext
    → ℕ
    → Text
    → List Candidate
    → Market
    → Result DispatchError (StartDispatchResult × Market)
finish_start world actor context command key [] m =
    finish_without_driver actor context command key m
finish_start world actor context command key (c ∷ eligible) m =
    ok (finish_with_offers world actor context command key (c ∷ eligible) m)

-- The statements after the command was looked up.
unfoldable pub start_fresh :
    World
    → Geography
    → DispatchActor
    → ℕ
    → Text
    → Market
    → Result DispatchError (StartDispatchResult × Market)
unfolding has_status read_booking_context append_booking_transition insert_attempt raw_candidates
    eligible_candidates finish_without_driver finish_with_offers
start_fresh world geography actor booking key m = do
  context ← read_booking_context world m.store booking
  require (has_status ready_for_dispatch context.status) conflict
  let command = next_id m
  moved ←
      append_booking_transition context searching_for_driver actor.account_id
        (units "DISPATCH_STARTED") (command + 1) command (made 4 m)
  tried ← insert_attempt (command + 2) context moved
  eligible ← eligible_candidates world context tried (raw_candidates world geography context tried)
  finish_start world actor context command key eligible tried

unfoldable pub start_booking_dispatch :
    World → Geography → DispatchActor → ℕ → Text → Market → Ended StartDispatchResult
unfolding is_booker started_before start_fresh
start_booking_dispatch world geography actor booking key m =
    ensure (is_booker m.store booking actor.person_id) forbidden (
      or_stored (started_before m.commands actor.account_id key) m
        (ended_with (start_fresh world geography actor booking key m)))

pub record BookingDispatchProjection : Type 0 where
  pub booking_id : ℕ
  pub booking_status : BookingStatus
  pub dispatch_status : Option DispatchAttemptStatus
  pub assignment : Option AssignmentRow

abbrev attempt_status : Option AttemptRow → Option DispatchAttemptStatus
attempt_status none = none
attempt_status (some a) = some a.status

abbrev active_assignment_of : Market → Option AttemptRow → Option AssignmentRow
active_assignment_of m none = none
active_assignment_of m (some attempt) =
    first_of (λ a. a.attempt_id == attempt.id && is_active_status a.status) m.assignments

-- The attempt of a booking is the only one, since its number is always 1.
unfoldable get_booking_dispatch_projection :
    Market → ℕ → DispatchActor → Result DispatchError BookingDispatchProjection
unfolding is_booker
get_booking_dispatch_projection m booking actor = do
  require (is_booker m.store booking actor.person_id) forbidden
  b ← row_or not_found (first_of (λ r. r.id == booking) m.store.bookings)
  let attempt = first_of (λ a. a.booking_id == booking) m.attempts
  ok (record {
    booking_id = booking;
    booking_status = b.status;
    dispatch_status = attempt_status attempt;
    assignment = active_assignment_of m attempt;
  })
