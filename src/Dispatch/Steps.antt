-- ===== src/Dispatch/Steps.antt =====
-- services/api/src/modules/dispatch/dispatch-service.ts: the statements that the commands of
-- Dispatch share: the booking's context, its transition and what happens to offers. Reason codes that only name the command are left out.
use dazat_mobility.Base.{
  ℕ, ◌+◌, Bool, true, false, ◌&&◌, Option, none, some, List, [], ◌∷◌, ◌++◌, map, ◌==◌,
  if◌then◌else◌, same, some_of, keep, Date,
}
use dazat_mobility.Base.Texts.{Text}
use dazat_mobility.Base.Results.{Result, ok, err, ◌>>=◌}
use dazat_mobility.Booking.Status.{BookingStatus, BookingStatus-discrete}
use dazat_mobility.Booking.Store.{
  Location, RequirementRow, BookingRow, booking_moved_to, Db, first_of, update_where,
}
use dazat_mobility.Dispatch.Availability.{DriverAvailabilityStatus, DriverOfferStatus, offered}
use dazat_mobility.Dispatch.Market.{
  ResponseReason, OfferRow, OfferOutcome, AttributionRow, Market, DispatchError, not_found,
  conflict, Ended, rolled_back, attribute_once,
}
use dazat_mobility.Dispatch.Evidence.{Value, DispatchRequirement, DispatchConfig}
use dazat_mobility.Dispatch.Registry.{Registry}

-- What a call reads beside the tables: the rows of Drivers, the configuration, the time, the
-- language's toUpperCase and the database driver's reading of a JSON object.
pub record World : Type 0 where
  pub registry : Registry
  pub config : DispatchConfig
  pub now : Date
  pub upper : Text → Text
  pub json : Text → List (Text × Value)

-- A statement that throws inside the transaction.
abbrev pub or_rollback : {A B : Type 0} → Result DispatchError A → (A → Ended B) → Ended B
or_rollback (err e) rest = rolled_back e
or_rollback (ok a) rest = rest a

abbrev pub row_or : {A : Type 0} → DispatchError → Option A → Result DispatchError A
row_or e none = err e
row_or e (some a) = ok a

pub record BookingDispatchContext : Type 0 where
  pub booking_id : ℕ
  pub status : BookingStatus
  pub aggregate_version : ℕ
  pub region_code : Text
  pub scheduled_for : Option Date
  pub pickup : Location
  pub dropoff : Location
  pub requirements : List DispatchRequirement

abbrev requirement_of : World → RequirementRow → DispatchRequirement
requirement_of world r = record {
  requirement_type = r.requirement_type;
  value = world.json r.requirement_value;
}

abbrev context_of : World → Db → BookingRow → Location → Location → BookingDispatchContext
context_of world db b pickup dropoff = record {
  booking_id = b.id;
  status = b.status;
  aggregate_version = b.aggregate_version;
  region_code = b.region_code;
  scheduled_for = b.scheduled_for;
  pickup = pickup;
  dropoff = dropoff;
  requirements = map (requirement_of world) (keep (λ r. r.booking_id == b.id) db.requirements);
}

unfoldable pub read_booking_context : World → Db → ℕ → Result DispatchError BookingDispatchContext
read_booking_context world db booking = do
  b ← row_or not_found (first_of (λ r. r.id == booking) db.bookings)
  pickup ← row_or not_found (first_of (λ l. l.id == b.pickup_snapshot_id) db.locations)
  dropoff ← row_or not_found (first_of (λ l. l.id == b.dropoff_snapshot_id) db.locations)
  ok (context_of world db b pickup.location dropoff.location)

unfoldable pub has_status : BookingStatus → BookingStatus → Bool
unfolding BookingStatus-discrete
has_status expected status = same BookingStatus-discrete status expected

-- WHERE id = $1 AND status = $4 AND aggregate_version = $5
unfoldable pub is_unchanged : BookingDispatchContext → BookingRow → Bool
unfolding has_status
is_unchanged context r =
    r.id == context.booking_id
    && (has_status context.status r.status && r.aggregate_version == context.aggregate_version)

-- The rows that appendBookingTransition writes.
unfoldable pub store_booking_transition :
    BookingDispatchContext → BookingStatus → ℕ → Text → ℕ → ℕ → Db → Db
unfolding is_unchanged
store_booking_transition context to actor reason correlation command db =
    let next = context.aggregate_version + 1 in
    record db {
      bookings =
          update_where (is_unchanged context)
            (λ r. record r { status = to; aggregate_version = next }) db.bookings;
      transitions =
          db.transitions
          ++ record {
            booking_id = context.booking_id;
            from_status = some context.status;
            to_status = to;
            aggregate_version = next;
            command_id = command;
            actor_id = actor;
            reason_code = reason;
          }
            ∷ [];
      outbox =
          db.outbox
          ++ record {
            aggregate_id = context.booking_id;
            aggregate_version = some next;
            event_type = booking_moved_to to;
            correlation_id = correlation;
            causation_id = command;
          }
            ∷ [];
    }

unfoldable pub append_booking_transition :
    BookingDispatchContext → BookingStatus → ℕ → Text → ℕ → ℕ → Market → Result DispatchError Market
unfolding is_unchanged store_booking_transition
append_booking_transition context to actor reason correlation command m =
    if some_of (is_unchanged context) m.store.bookings
    then ok (record m {
      store = store_booking_transition context to actor reason correlation command m.store;
    })
    else err conflict

abbrev pub is_offered : DriverOfferStatus → Bool
is_offered offered = true
is_offered _ = false

abbrev pub find_offer : Market → ℕ → Option OfferRow
find_offer m offer = first_of (λ o. o.id == offer) m.offers

-- UPDATE dispatch.driver_offer SET status, response_reason WHERE p.
abbrev pub answer_offers :
    (OfferRow → Bool) → DriverOfferStatus → Option ResponseReason → Market → Market
answer_offers p status reason m = record m {
  offers = update_where p (λ o. record o { status = status; reason = reason }) m.offers;
}

abbrev pub attribution : ℕ → ℕ → OfferOutcome → Option ResponseReason → Bool → AttributionRow
attribution offer driver outcome reason ordinary_decline = record {
  offer_id = offer;
  driver_id = driver;
  outcome = outcome;
  reason = reason;
  ordinary_decline = ordinary_decline;
}

abbrev pub attribute : AttributionRow → Market → Market
attribute row m = record m { attributions = m.attributions ++ row ∷ [] }

-- INSERT ... SELECT ... ON CONFLICT DO NOTHING for the offers given.
abbrev pub attribute_each :
    OfferOutcome → ResponseReason → List OfferRow → List AttributionRow → List AttributionRow
attribute_each outcome reason [] rows = rows
attribute_each outcome reason (o ∷ offers) rows =
    attribute_each outcome reason offers
      (attribute_once (attribution o.id o.driver_id outcome (some reason) false) rows)

-- WITH changed AS (UPDATE ... RETURNING) INSERT ... SELECT FROM changed: the offers of a test are
-- answered and attributed.
unfoldable pub answer_and_attribute :
    (OfferRow → Bool) → DriverOfferStatus → OfferOutcome → ResponseReason → Market → Market
answer_and_attribute p status outcome reason m =
    let after = answer_offers p status (some reason) m in
    record after {
      attributions = attribute_each outcome reason (keep p m.offers) after.attributions;
    }

-- UPDATE of the availability and its transition.
unfoldable pub store_availability_transition :
    ℕ → DriverAvailabilityStatus → DriverAvailabilityStatus → ℕ → ℕ → Market → Market
store_availability_transition driver from to version command m = record m {
  availability =
      update_where (λ r. r.driver_id == driver) (λ r. record r { status = to; version = version })
        m.availability;
  availability_transitions =
      m.availability_transitions
      ++ record {
        driver_id = driver;
        from_status = from;
        to_status = to;
        version = version;
        command_id = command;
      }
        ∷ [];
}
