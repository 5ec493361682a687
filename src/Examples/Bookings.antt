-- ===== src/Examples/Bookings.antt =====
-- The booking service at concrete tables.
use dazat_mobility.Base.{true, none, some, [], ◌∷◌, ◌≡◌, refl, at, natural}
use dazat_mobility.Base.Texts.{units, trim}
use dazat_mobility.Base.Results.{ok}
use dazat_mobility.Pricing.{QuoteStatus, is_quote_usable}
use dazat_mobility.Booking.Status.{
  BookingStatus, draft, awaiting_confirmation, scheduled, can_use_canonical_forward_transition,
}
use dazat_mobility.Booking.Store.{
  Location, BookingSummary, FareAgreement, ConfirmBookingResult, booker, Db, Principal, transaction,
}
use dazat_mobility.Booking.Transition.{
  is_booker, read_booking_summary, store_transition, transition_statements, transition_booking,
}
use dazat_mobility.Booking.Transition.Laws.{IsRecorded, transition-IsRecorded}
use dazat_mobility.Booking.Create.{
  CreateRiderBookingRequest, validate_location, scheduled_date, insert_location_snapshot,
  insert_requirements, find_created, store_booking, tell_created, respond, insert_rest,
  insert_booking, create_statements, checked_request, create_rider_booking,
}
use dazat_mobility.Booking.Create.Laws.{create_again}
use dazat_mobility.Booking.Quotes.{stored_or_booking}
use dazat_mobility.Booking.Confirm.{
  store_agreement, accept_statements, accept_quote, accept_and_confirm, confirm_rider_booking,
}
use dazat_mobility.Booking.Confirm.Laws.{IsAcceptance, accept-IsAcceptance}
use dazat_mobility.Booking.Confirm.Outcome.{IsClassified, IsStored, confirm_lem}

abbrev pub rider : Principal
rider = record { account_id = 70; person_id = 7; rider_profile_id = some 77 }

abbrev home : Location
home = record {
  latitude = natural 6;
  longitude = natural 3;
  display_label = units "Yaba";
  structured_address = [];
  provider_reference = none;
}

abbrev pub request : CreateRiderBookingRequest
request = record {
  pickup = home;
  dropoff = record home { latitude = natural 7 };
  region_code = units "LAGOS";
  scheduled_for = none;
  requirements = record { type = units "WAV"; value = units "true" } ∷ [];
}

abbrev pub empty_tables : Db
empty_tables = record {
  next_id = 0;
  riders = record { id = 77; person_id = 7; active_or_limited = true } ∷ [];
  locations = [];
  bookings = [];
  parties = [];
  requirements = [];
  transitions = [];
  outbox = [];
  quotes = [];
  agreements = [];
  commands = [];
}

abbrev first_summary : BookingSummary
first_summary = record {
  booking_id = 4;
  status = draft;
  aggregate_version = 1;
  region_code = units "LAGOS";
  scheduled_for = none;
  pickup = home;
  dropoff = record home { latitude = natural 7 };
}

abbrev pub after_creation : Db
after_creation =
    (create_rider_booking (λ s. s) (λ s. at 0) request rider (units "k1") empty_tables).1

create_again_example :
    create_rider_booking (λ s. s) (λ s. at 0) request rider (units "k1") after_creation
    ≡ (ok first_summary, after_creation)
unfolding create_rider_booking checked_request validate_location scheduled_date trim transaction
    create_statements find_created insert_booking insert_location_snapshot insert_rest
    insert_requirements store_booking tell_created respond read_booking_summary
create_again_example =
    create_again (λ s. s) (λ s. at 0) request rider (units "k1") empty_tables first_summary
      after_creation refl

-- A booking that awaits its confirmation, with an offered quote.
abbrev quoted_tables : Db
quoted_tables = record empty_tables {
  next_id = 10;
  locations =
      record { id = 2; location = home }
      ∷ record { id = 3; location = record home { latitude = natural 7 } }
      ∷ [];
  bookings =
      record {
        id = 4;
        status = awaiting_confirmation;
        pickup_snapshot_id = 2;
        dropoff_snapshot_id = 3;
        scheduled_for = none;
        region_code = units "LAGOS";
        aggregate_version = 3;
      }
      ∷ [];
  parties = record { booking_id = 4; role = booker; person_id = 7 } ∷ [];
  quotes =
      record {
        id = 6;
        booking_id = 4;
        status = QuoteStatus.offered;
        amount_minor = natural 2_500;
        currency = units "NGN";
        policy_version = units "v1";
        expires_at = at 700_000;
      }
      ∷ [];
}

abbrev confirmed_summary : BookingSummary
confirmed_summary = record first_summary { status = BookingStatus.confirmed; aggregate_version = 4 }

abbrev after_transition : Db
after_transition =
    (transition_booking 4 awaiting_confirmation BookingStatus.confirmed rider (units "R") 8
      quoted_tables).1

transition-IsRecorded_example :
    (can_use_canonical_forward_transition awaiting_confirmation BookingStatus.confirmed ≡ true)
    × (is_booker quoted_tables 4 7 ≡ true)
    × IsRecorded awaiting_confirmation BookingStatus.confirmed 4 rider
        (units "R")
        8
        quoted_tables
        confirmed_summary
        after_transition
unfolding transition_booking transaction transition_statements is_booker store_transition
    read_booking_summary can_use_canonical_forward_transition
transition-IsRecorded_example =
    (transition-IsRecorded awaiting_confirmation BookingStatus.confirmed 4 rider (units "R") 8
        quoted_tables).0
      confirmed_summary after_transition refl

abbrev agreement : FareAgreement
agreement = record {
  fare_agreement_id = 11;
  quote_id = 6;
  amount_minor = natural 2_500;
  currency = units "NGN";
  policy_version = units "v1";
  agreed_at = at 600_000;
}

abbrev after_acceptance : Db
after_acceptance = (accept_quote 4 6 (units "k2") 9 (at 600_000) quoted_tables).1

accept-IsAcceptance_example : IsAcceptance 4 6 (at 600_000) quoted_tables agreement after_acceptance
unfolding accept_quote transaction accept_statements store_agreement is_quote_usable
accept-IsAcceptance_example =
    (accept-IsAcceptance 4 6 (units "k2") 9 (at 600_000) quoted_tables refl).0 agreement
      after_acceptance refl

-- The same tables, where the booking is scheduled for a later time.
abbrev scheduled_tables : Db
scheduled_tables = record quoted_tables {
  bookings =
      record {
        id = 4;
        status = awaiting_confirmation;
        pickup_snapshot_id = 2;
        dropoff_snapshot_id = 3;
        scheduled_for = some (at 900_000);
        region_code = units "LAGOS";
        aggregate_version = 3;
      }
      ∷ [];
}

abbrev confirmation : ConfirmBookingResult
confirmation = record {
  booking = record first_summary {
    status = scheduled;
    aggregate_version = 5;
    scheduled_for = some (at 900_000);
  };
  fare_agreement = record agreement { fare_agreement_id = 12 };
}

abbrev after_confirmation : Db
after_confirmation = (confirm_rider_booking 4 6 rider (units "k2") (at 600_000) scheduled_tables).1

confirm_lem_example :
    (is_booker scheduled_tables 4 7 ≡ true)
    × ((s : BookingSummary) × (read_booking_summary scheduled_tables 4 ≡ ok s)
        × IsClassified s (at 600_000) scheduled)
    × IsStored 4 confirmation.booking after_confirmation
unfolding confirm_rider_booking stored_or_booking accept_and_confirm accept_quote transaction
    accept_statements store_agreement is_quote_usable transition_booking transition_statements
    is_booker store_transition read_booking_summary can_use_canonical_forward_transition
confirm_lem_example =
    confirm_lem 4 6 rider (units "k2") (at 600_000) scheduled_tables confirmation after_confirmation
      refl refl
