-- ===== src/Examples/Dispatching.antt =====
-- The commands of Dispatch at the tables of Examples/Tables.
use dazat_mobility.Base.{◌==◌, arith, ◌+◌, ◌≤◌, true, none, some, [], ◌∷◌, ◌≡◌, refl, at, natural}
use dazat_mobility.Base.Texts.{units, trim, text_eq, member, contains_text, sort_texts}
use dazat_mobility.Base.Results.{ok}
use dazat_mobility.Booking.Status.{BookingStatus-discrete, ready_for_dispatch}
use dazat_mobility.Booking.Store.{BookingRow, first_of}
use dazat_mobility.Driver.Fatigue.{evaluate_driver_fatigue_safety, decide_fatigue}
use dazat_mobility.Dispatch.Availability.{
  DriverAvailabilityStatus-discrete, break, DriverOfferStatus, can_transition_driver_availability,
  availability_transitions,
}
use dazat_mobility.Dispatch.Eligibility.{
  is_location_fresh, eligibility_rows, evaluate_driver_dispatch_eligibility,
}
use dazat_mobility.Dispatch.Market.{
  booking_assigned, OfferRow, Market, check_violation, conflict, committed, rolled_back, settled,
}
use dazat_mobility.Dispatch.Evidence.{
  hard_requirements_match, required_permission_service_codes, maintenance_permits_services,
  fatigue_safety_passed,
}
use dazat_mobility.Dispatch.Lookup.{DispatchActor, decision_input, read_driver_eligibility}
use dazat_mobility.Dispatch.Steps.{
  append_booking_transition, has_status, is_unchanged, read_booking_context,
  store_availability_transition, store_booking_transition,
}
use dazat_mobility.Dispatch.Shifts.{record_driver_shift_availability_event}
use dazat_mobility.Dispatch.Accept.{accept_driver_offer, accept_response}
use dazat_mobility.Dispatch.Assigning.{
  accepted_before, assign, may_become_assigned, store_assignment,
}
use dazat_mobility.Dispatch.Intent.{may_become, set_driver_availability}
use dazat_mobility.Dispatch.Claims.{SetDriverAvailabilityRequest, set_before}
use dazat_mobility.Dispatch.Start.{start_booking_dispatch}
use dazat_mobility.Dispatch.Candidates.{Geography}
use dazat_mobility.Dispatch.Exclusive.{accepted_of, open_of, assignments_of}
use dazat_mobility.Dispatch.Races.{opening, then_step, start, accept, one_acceptance}
use dazat_mobility.Dispatch.Races.Assigned.{IsAssigned}
use dazat_mobility.Dispatch.Races.Second.{IsFreshCall, second_acceptance_is_refused}
use dazat_mobility.Dispatch.Races.Progress.{
  IsAcceptable, acceptable_offer_is_accepted, break_is_refused,
}
use dazat_mobility.Examples.Tables.{
  at_work, cleared_driver, context, current_shift, driver_5, driver_6, market, offer_to,
  searching_tables, world,
}

IsFreshCall-driver_5 : IsFreshCall driver_5 30 (units "k") market 5 (offer_to 30 5)
unfolding accepted_before
IsFreshCall-driver_5 = record { known = refl; found = refl; own = refl; unused = refl }

IsAcceptable-driver_5 :
    IsAcceptable world driver_5 market 5
      (offer_to 30 5)
      context
      cleared_driver
      at_work
      current_shift
unfolding has_status BookingStatus-discrete read_booking_context read_driver_eligibility
    decision_input fatigue_safety_passed evaluate_driver_fatigue_safety decide_fatigue
    evaluate_driver_dispatch_eligibility eligibility_rows is_location_fresh hard_requirements_match
    maintenance_permits_services required_permission_service_codes trim contains_text sort_texts
    text_eq member may_become_assigned can_transition_driver_availability availability_transitions
    DriverAvailabilityStatus-discrete
IsAcceptable-driver_5 = record {
  lasting = refl;
  unanswered = refl;
  current = refl;
  informed = refl;
  read = refl;
  searching = refl;
  decided = refl;
  eligible = refl;
  free = refl;
  unattributed = refl;
  there = refl;
  not_offline = ground arith;
  not_on_break = ground arith;
  on_shift = refl;
}

acceptable_offer_is_accepted_example :
    (after : Market) × (accept_driver_offer world driver_5 30 (units "k") market
      ≡ committed (ok (accept_response 52 (offer_to 30 5) 5 (at 820_000))) after)
    × (b : BookingRow) × (first_of (λ r. r.id == 4) market.store.bookings ≡ some b)
    × IsAssigned market after 52 5 (offer_to 30 5) b at_work
acceptable_offer_is_accepted_example =
    acceptable_offer_is_accepted world driver_5 30 (units "k") market 5 (offer_to 30 5) context
      cleared_driver at_work current_shift IsFreshCall-driver_5 IsAcceptable-driver_5

-- The tables after the acceptance, with the other offer withdrawn.
abbrev after_acceptance : Market
after_acceptance = (settled market (accept_driver_offer world driver_5 30 (units "k") market)).1

abbrev withdrawn_offer : OfferRow
withdrawn_offer = record (offer_to 31 6) {
  status = DriverOfferStatus.withdrawn;
  reason = some booking_assigned;
}

accepted_5 :
    accept_driver_offer world driver_5 30 (units "k") market
    ≡ committed (ok (accept_response 52 (offer_to 30 5) 5 (at 820_000))) after_acceptance
unfolding accept_driver_offer accepted_before has_status BookingStatus-discrete read_booking_context
    read_driver_eligibility decision_input fatigue_safety_passed evaluate_driver_fatigue_safety
    decide_fatigue evaluate_driver_dispatch_eligibility eligibility_rows is_location_fresh
    hard_requirements_match maintenance_permits_services required_permission_service_codes trim
    contains_text sort_texts text_eq member may_become_assigned can_transition_driver_availability
    availability_transitions DriverAvailabilityStatus-discrete assign store_assignment
    store_availability_transition record_driver_shift_availability_event append_booking_transition
    store_booking_transition is_unchanged
accepted_5 = refl

IsFreshCall-driver_6 : IsFreshCall driver_6 31 (units "k") after_acceptance 6 withdrawn_offer
unfolding accept_driver_offer accepted_before has_status BookingStatus-discrete read_booking_context
    read_driver_eligibility decision_input fatigue_safety_passed evaluate_driver_fatigue_safety
    decide_fatigue evaluate_driver_dispatch_eligibility eligibility_rows is_location_fresh
    hard_requirements_match maintenance_permits_services required_permission_service_codes trim
    contains_text sort_texts text_eq member may_become_assigned can_transition_driver_availability
    availability_transitions DriverAvailabilityStatus-discrete assign store_assignment
    store_availability_transition record_driver_shift_availability_event append_booking_transition
    store_booking_transition is_unchanged
IsFreshCall-driver_6 = record { known = refl; found = refl; own = refl; unused = refl }

second_acceptance_is_refused_example :
    accept_driver_offer world driver_6 31 (units "k") after_acceptance ≡ rolled_back conflict
second_acceptance_is_refused_example =
    second_acceptance_is_refused world world driver_5 driver_6 30 31 (units "k") (units "k") market
      after_acceptance 5 6 (offer_to 30 5) withdrawn_offer
      (accept_response 52 (offer_to 30 5) 5 (at 820_000)) IsFreshCall-driver_5 accepted_5
      IsFreshCall-driver_6 refl

abbrev break_request : SetDriverAvailabilityRequest
break_request = record { status = break; region_code = none; vehicle_id = none; location = none }

break_is_refused_example :
    set_driver_availability world driver_5 break_request (units "k") market
    ≡ rolled_back check_violation
unfolding set_before may_become can_transition_driver_availability availability_transitions
    DriverAvailabilityStatus-discrete
break_is_refused_example =
    break_is_refused world driver_5 break_request (units "k") market 5 refl refl refl

-- The same tables before the search, and what they are after it and an acceptance.
abbrev ready_market : Market
ready_market = record market {
  store = record searching_tables {
    bookings =
        record {
          id = 4;
          status = ready_for_dispatch;
          pickup_snapshot_id = 2;
          dropoff_snapshot_id = 2;
          scheduled_for = none;
          region_code = units "LAGOS";
          aggregate_version = 5;
        }
        ∷ [];
  };
  attempts = [];
  offers = [];
}

abbrev geography : Geography
geography = record {
  nearest_first = λ place rows. rows;
  distance = λ place row. some (natural 300);
}

abbrev rider_7 : DispatchActor
rider_7 = record { account_id = 77; person_id = 7; account_active = true; driver_profile_id = none }

abbrev started : Market
started =
    (settled ready_market
      (start_booking_dispatch world geography rider_7 4 (units "s") ready_market)).1

abbrev answered_market : Market
answered_market = (settled started (accept_driver_offer world driver_5 54 (units "k") started)).1

one_acceptance_example :
    (accepted_of answered_market 52 + open_of answered_market 52 ≤ 1)
    × (assignments_of answered_market 52 ≡ accepted_of answered_market 52)
one_acceptance_example =
    one_acceptance
      (then_step
        (then_step (opening ready_market refl refl refl)
          (start world geography rider_7 4 (units "s")))
        (accept world driver_5 54 (units "k")))
      52
