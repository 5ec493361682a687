-- ===== src/Examples/Histories.antt =====
-- Runs of the services at concrete tables.
use dazat_mobility.Base.{◌+◌, ◌≤◌, true, none, [], ◌≡◌, refl, at, natural}
use dazat_mobility.Base.Texts.{units, trim}
use dazat_mobility.Base.Results.{ok}
use dazat_mobility.Booking.Status.{draft}
use dazat_mobility.Booking.Chains.{rank}
use dazat_mobility.Booking.Store.{BookingRow, transaction}
use dazat_mobility.Booking.Transition.{read_booking_summary}
use dazat_mobility.Booking.Create.{
  validate_location, scheduled_date, insert_location_snapshot, insert_requirements, find_created,
  store_booking, tell_created, respond, insert_rest, insert_booking, create_statements,
  checked_request, create_rider_booking,
}
use dazat_mobility.Booking.Quotes.{PricingPort, quote_rider_booking}
use dazat_mobility.Dispatch.Market.{Market}
use dazat_mobility.History.{replay_from, row_of, state_of_row, unmade}
use dazat_mobility.History.Runs.{
  with_store, Run, opening, then_call, create, price, log_replays_to_bookings, versions_end,
}
use dazat_mobility.Examples.Bookings.{rider, request, empty_tables, after_creation}
use dazat_mobility.Examples.Tables.{market}

abbrev empty_market : Market
empty_market = record market { store = empty_tables; attempts = []; offers = [] }

abbrev created_market : Market
created_market = with_store empty_market after_creation

creation : Run created_market
creation =
    then_call (opening empty_market refl refl)
      (create (λ s. s) (λ s. at 0) request rider (units "k1"))

-- A pricing port that prices every booking the same.
abbrev flat : PricingPort
flat booking region schedule = ok (record {
  amount_minor = natural 2_500;
  currency = units "NGN";
  policy_version = units "v1";
  expires_at = at 700_000;
  non_commercial_development_fixture = true;
})

abbrev priced_market : Market
priced_market =
    with_store created_market (quote_rider_booking flat 4 rider (units "k2") after_creation).1

log_replays_to_bookings_example :
    replay_from unmade 4 priced_market.store.transitions
    ≡ state_of_row (row_of priced_market.store 4)
log_replays_to_bookings_example =
    log_replays_to_bookings (then_call creation (price flat 4 rider (units "k2"))) 4

abbrev created_row : BookingRow
created_row = record {
  id = 4;
  status = draft;
  pickup_snapshot_id = 2;
  dropoff_snapshot_id = 3;
  scheduled_for = none;
  region_code = units "LAGOS";
  aggregate_version = 1;
}

versions_end_example : (1 ≤ rank draft + 1) × (1 ≤ 19)
unfolding create_rider_booking checked_request validate_location scheduled_date trim transaction
    create_statements find_created insert_booking insert_location_snapshot insert_rest
    insert_requirements store_booking tell_created respond read_booking_summary
versions_end_example = versions_end creation 4 created_row refl
