-- ===== src/Examples/Tables.antt =====
-- The tables of Dispatch at which the theorems apply: a rider, two Drivers and one booking.
use dazat_mobility.Base.{ℕ, true, false, none, some, [], ◌∷◌, at, natural}
use dazat_mobility.Base.Texts.{units}
use dazat_mobility.Booking.Status.{searching_for_driver}
use dazat_mobility.Booking.Store.{Location, Db, booker}
use dazat_mobility.Dispatch.Availability.{available, DriverEligibilityStatus, DriverOfferStatus}
use dazat_mobility.Dispatch.Market.{offering, OfferRow, AvailabilityRow, ShiftRow, Market}
use dazat_mobility.Dispatch.Registry.{DriverFile, VehicleFile}
use dazat_mobility.Dispatch.Lookup.{DispatchActor, InternalEligibility}
use dazat_mobility.Dispatch.Steps.{BookingDispatchContext, World}

abbrev yaba : Location
yaba = record {
  latitude = natural 6;
  longitude = natural 3;
  display_label = units "Yaba";
  structured_address = [];
  provider_reference = none;
}

-- A booking that searches for a Driver.
abbrev pub searching_tables : Db
searching_tables = record {
  next_id = 50;
  riders = [];
  locations = record { id = 2; location = yaba } ∷ [];
  bookings =
      record {
        id = 4;
        status = searching_for_driver;
        pickup_snapshot_id = 2;
        dropoff_snapshot_id = 2;
        scheduled_for = none;
        region_code = units "LAGOS";
        aggregate_version = 6;
      }
      ∷ [];
  parties = record { booking_id = 4; role = booker; person_id = 7 } ∷ [];
  requirements = [];
  transitions = [];
  outbox = [];
  quotes = [];
  agreements = [];
  commands = [];
}

abbrev pub offer_to : ℕ → ℕ → OfferRow
offer_to id driver = record {
  id = id;
  attempt_id = 20;
  booking_id = 4;
  driver_id = driver;
  vehicle_id = 9;
  status = DriverOfferStatus.offered;
  expires_at = at 900_000;
  reason = none;
  acceptance_allowed = some true;
}

abbrev pub at_work : AvailabilityRow
at_work = record {
  driver_id = 5;
  status = available;
  version = 3;
  region_code = some (units "LAGOS");
  vehicle_id = some 9;
  location_observed_at = some (at 800_000);
  location_confidence = some (natural 1);
}

abbrev pub current_shift : ShiftRow
current_shift = record {
  id = 40;
  driver_id = 5;
  active = true;
  region_code = units "LAGOS";
  vehicle_id = 9;
}

abbrev pub market : Market
market = record {
  store = searching_tables;
  attempts =
      record {
        id = 20;
        booking_id = 4;
        booking_version = 6;
        status = offering;
        region_code = units "LAGOS";
      }
      ∷ [];
  offers = offer_to 30 5 ∷ offer_to 31 6 ∷ [];
  assignments = [];
  availability = at_work ∷ [];
  availability_transitions = [];
  shifts = current_shift ∷ [];
  shift_events = [];
  attributions = [];
  messages = [];
  commands = [];
}

abbrev driver_file : DriverFile
driver_file = record {
  account_active = true;
  approved = true;
  compliance =
      some
        (record { status = DriverEligibilityStatus.eligible; valid_until = some (at 9_000_000) });
  vehicles = 9 ∷ [];
  permissions = record { region_code = units "LAGOS"; service_code = units "STANDARD" } ∷ [];
  restrictions = [];
  commitments = [];
  fatigue = record {
    shift_started_at = some (at 600_000);
    last_qualifying_rest_started_at = none;
    last_qualifying_rest_ended_at = none;
    driver_reported_fatigue = false;
    drowsiness_signal_observed = false;
  };
}

abbrev vehicle_file_9 : VehicleFile
vehicle_file_9 = record {
  snapshot =
      some
        (record { status = DriverEligibilityStatus.eligible; valid_until = some (at 9_000_000) });
  service_capabilities = some [];
  gate = some (record { operating_permitted = some true; restricted_service_codes = none });
}

abbrev pub world : World
world = record {
  registry = record { drivers = λ d. some driver_file; vehicles = λ v. vehicle_file_9 };
  config = record {
    minimum_location_confidence = natural 0;
    location_max_age_seconds = natural 600;
    fatigue_policy = record {
      warning_after_duty_minutes = natural 100;
      rest_required_after_duty_minutes = natural 200;
      minimum_qualifying_rest_minutes = natural 30;
    };
    offer_wave_size = 2;
    offer_ttl_seconds = 30;
    development_pickup_eta_minutes = none;
    development_earning_amount_minor = none;
    development_earning_currency = none;
  };
  now = at 820_000;
  upper = λ t. t;
  json = λ t. [];
}

abbrev pub driver_5 : DispatchActor
driver_5 = record {
  account_id = 55;
  person_id = 15;
  account_active = true;
  driver_profile_id = some 5;
}

abbrev pub driver_6 : DispatchActor
driver_6 = record {
  account_id = 66;
  person_id = 16;
  account_active = true;
  driver_profile_id = some 6;
}

abbrev pub context : BookingDispatchContext
context = record {
  booking_id = 4;
  status = searching_for_driver;
  aggregate_version = 6;
  region_code = units "LAGOS";
  scheduled_for = none;
  pickup = yaba;
  dropoff = yaba;
  requirements = [];
}

abbrev pub cleared_driver : InternalEligibility
cleared_driver = record {
  decision = record { eligible = true; blockers = [] };
  driver_profile_id = 5;
  vehicle_id = some 9;
  compliance_valid_until = some (at 9_000_000);
  vehicle_valid_until = some (at 9_000_000);
}
