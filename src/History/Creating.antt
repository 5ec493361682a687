-- ===== src/History/Creating.antt =====
-- services/api/src/modules/booking/booking-service.ts: createRiderBooking keeps the tables of bookings
-- what their log says.
use dazat_mobility.Base.{
  ℕ, suc, Option, none, List, [], ◌∷◌, ◌++◌, ◌≡◌, refl, subst, arith, inl, inr, Option-cases, Date,
  not,
}
use dazat_mobility.Base.Texts.{Text, units, trim}
use dazat_mobility.Base.Results.{Result, ok, err, require, after_check, Result-cases}
use dazat_mobility.Booking.Status.{draft}
use dazat_mobility.Booking.Store.{
  Location, BookingSummary, Db, Principal, ServiceError, transaction, forbidden,
  invalid_requirement,
}
use dazat_mobility.Booking.Create.{
  CreateRiderBookingRequest, Requirement, bad_type, insert_location_snapshot, insert_requirements,
  store_booking, tell_created, respond, insert_rest, insert_booking, create_statements,
  find_created, is_eligible_rider, checked_request, run_checked, create_rider_booking,
}
use dazat_mobility.History.{IsReplayed, Quiet, Quiet-IsReplayed}
use dazat_mobility.History.Making.{made-IsReplayed}
use dazat_mobility.History.Bookings.{after-settle}

-- The requirements are written beside the booking.
insert_requirements-Quiet :
    (booking : ℕ) (rs : List Requirement) (db after : Db)
    → insert_requirements booking rs db ≡ ok after
    → (after.bookings ≡ db.bookings)
      × (after.transitions ≡ db.transitions)
      × (after.next_id ≡ db.next_id)
unfolding insert_requirements
insert_requirements-Quiet booking [] db after h = (ground arith, ground arith, ground arith)
insert_requirements-Quiet booking (r ∷ rs) db after h =
    let more : Db = record db {
      requirements =
          db.requirements
          ++ record {
            booking_id = booking;
            requirement_type = trim r.type;
            requirement_value = r.value;
          }
            ∷ [];
    } in
    insert_requirements-Quiet booking rs more after (
      after_check (require (not (bad_type (trim r.type))) invalid_requirement)
        (insert_requirements booking rs more) after h)

location-Quiet :
    (l : Location) (db : Db) (id : ℕ) (after : Db)
    → insert_location_snapshot l db ≡ ok (id, after)
    → Quiet db after
unfolding insert_location_snapshot
location-Quiet l db id after h = record {
  later = ground arith;
  bookings = ground arith;
  transitions = ground arith;
}

respond-Quiet :
    (key : Text) (booking : ℕ) (db : Db) (s : BookingSummary) (after : Db)
    → respond key booking db ≡ ok (s, after)
    → Quiet db after
unfolding respond
respond-Quiet key booking db s after h = record {
  later = ground arith;
  bookings = ground arith;
  transitions = ground arith;
}

made_booking :
    (request : CreateRiderBookingRequest) (actor : Principal) (region : Text)
    (scheduled : Option Date) (command correlation pickup dropoff : ℕ) (db required : Db)
    → IsReplayed db
    → (required.bookings ≡ (store_booking pickup dropoff actor region scheduled db).bookings)
      × (required.transitions
          ≡ (store_booking pickup dropoff actor region scheduled db).transitions)
      × (required.next_id ≡ (store_booking pickup dropoff actor region scheduled db).next_id)
    → IsReplayed (tell_created db.next_id command correlation actor required)
unfolding store_booking tell_created
made_booking request actor region scheduled command correlation pickup dropoff db required inv
      quiet =
    made-IsReplayed
      (record {
        id = db.next_id;
        status = draft;
        pickup_snapshot_id = pickup;
        dropoff_snapshot_id = dropoff;
        scheduled_for = scheduled;
        region_code = region;
        aggregate_version = 1;
      })
      (record {
        booking_id = db.next_id;
        from_status = none;
        to_status = draft;
        aggregate_version = 1;
        command_id = command;
        actor_id = actor.account_id;
        reason_code = units "RIDER_BOOKING_CREATED";
      })
      db (tell_created db.next_id command correlation actor required)
      (record {
        fresh = omega arith;
        made = rw quiet.2 (omega arith);
        is_draft = refl;
        first = refl;
        bookings = quiet.0;
        transitions = rw quiet.1 refl;
        of_booking = refl;
        from_nothing = refl;
        to_draft = refl;
        version = refl;
      })
      inv

insert_rest-IsReplayed :
    (request : CreateRiderBookingRequest) (actor : Principal) (region : Text)
    (scheduled : Option Date) (key : Text) (command correlation pickup dropoff : ℕ) (db : Db)
    (s : BookingSummary) (after : Db)
    → IsReplayed db
    → insert_rest request actor region scheduled key command correlation pickup dropoff db
      ≡ ok (s, after)
    → IsReplayed after
unfolding insert_rest
insert_rest-IsReplayed request actor region scheduled key command correlation pickup dropoff db s
      after inv h =
    let stored = store_booking pickup dropoff actor region scheduled db in
    elim (Result-cases (insert_requirements db.next_id request.requirements stored)) [
      | inr (e, failed) ↦ absurd (ground arith)
      | inl (required, done) ↦
          let quiet =
            insert_requirements-Quiet db.next_id request.requirements stored required done in
          let told = tell_created db.next_id command correlation actor required in
          let answered : respond key db.next_id told ≡ ok (s, after) = ground arith in
          Quiet-IsReplayed told after (respond-Quiet key db.next_id told s after answered) (
            made_booking request actor region scheduled command correlation pickup dropoff db
              required inv quiet)
    ]

insert_booking-IsReplayed :
    (request : CreateRiderBookingRequest) (actor : Principal) (region : Text)
    (scheduled : Option Date) (key : Text) (command correlation : ℕ) (db : Db) (s : BookingSummary)
    (after : Db)
    → IsReplayed db
    → insert_booking request actor region scheduled key command correlation db ≡ ok (s, after)
    → IsReplayed after
unfolding insert_booking
insert_booking-IsReplayed request actor region scheduled key command correlation db s after inv h =
    elim (Result-cases (insert_location_snapshot request.pickup db)) [
      | inr (e, failed) ↦ absurd (ground arith)
      | inl ((pickup, picked), one) ↦
          elim (Result-cases (insert_location_snapshot request.dropoff picked)) [
            | inr (e, failed) ↦ absurd (ground arith)
            | inl ((dropoff, dropped), two) ↦
                insert_rest-IsReplayed request actor region scheduled key command correlation pickup
                  dropoff dropped s after
                  (Quiet-IsReplayed picked dropped
                    (location-Quiet request.dropoff picked dropoff dropped two)
                    (Quiet-IsReplayed db picked (location-Quiet request.pickup db pickup picked one)
                      inv))
                  (ground arith)
          ]
    ]

create_statements-IsReplayed :
    (request : CreateRiderBookingRequest) (actor : Principal) (rider : ℕ) (region : Text)
    (scheduled : Option Date) (key : Text) (db : Db) (s : BookingSummary) (after : Db)
    → IsReplayed db
    → create_statements request actor rider region scheduled key db ≡ ok (s, after)
    → IsReplayed after
unfolding create_statements
create_statements-IsReplayed request actor rider region scheduled key db s after inv h =
    elim (Option-cases (find_created key db.commands)) [
      | inr (earlier, known) ↦ let same : db ≡ after = ground arith in subst IsReplayed same inv
      | inl unknown ↦
          let counted : Db = record db { next_id = suc (suc db.next_id) } in
          insert_booking-IsReplayed request actor region scheduled key db.next_id (suc db.next_id)
            counted s after
            (Quiet-IsReplayed db counted
              (record { later = omega arith; bookings = refl; transitions = refl }) inv)
            (after_check (require (is_eligible_rider db rider actor.person_id) forbidden)
              (insert_booking request actor region scheduled key db.next_id (suc db.next_id)
                counted)
              (s, after) (rw unknown at h))
    ]

run_checked-IsReplayed :
    (request : CreateRiderBookingRequest) (actor : Principal) (key : Text)
    (checked : Result ServiceError (ℕ × Text × Option Date)) (db : Db)
    → IsReplayed db
    → IsReplayed (run_checked request actor key checked db).1
unfolding transaction
run_checked-IsReplayed request actor key (err e) db inv = inv
run_checked-IsReplayed request actor key (ok (rider, region, scheduled)) db inv =
    after-settle IsReplayed db (create_statements request actor rider region scheduled key db) inv
      (λ s after h.
        create_statements-IsReplayed request actor rider region scheduled key db s after inv h)

pub create_rider_booking-IsReplayed :
    (upper : Text → Text) (parse_date : Text → Date) (request : CreateRiderBookingRequest)
    (actor : Principal) (key : Text) (db : Db)
    → IsReplayed db
    → IsReplayed (create_rider_booking upper parse_date request actor key db).1
unfolding create_rider_booking
create_rider_booking-IsReplayed upper parse_date request actor key db inv =
    run_checked-IsReplayed request actor key (checked_request upper parse_date request actor) db inv
