-- ===== src/Dispatch/Intent.antt =====
-- services/api/src/modules/dispatch/dispatch-service.ts: setDriverAvailability; the claims to go
-- online are in Claims.
use dazat_mobility.Base.{
  ℕ, ◌+◌, Bool, true, false, ◌&&◌, ◌||◌, Option, none, some, List, [], ◌∷◌, ◌++◌, ◌==◌,
  if◌then◌else◌, same,
}
use dazat_mobility.Base.Texts.{Text, trim}
use dazat_mobility.Base.Results.{Result, ok, err, require, ◌>>=◌, ◌>>◌}
use dazat_mobility.Booking.Store.{update_where}
use dazat_mobility.Dispatch.Availability.{
  DriverAvailabilityStatus, DriverAvailabilityStatus-discrete, offline, break, withdrawn,
  can_transition_driver_availability,
}
use dazat_mobility.Dispatch.Market.{
  driver_work_intent_change, AvailabilityRow, OfferOutcome, DriverAvailabilitySummary,
  set_availability, Market, DispatchError, forbidden, check_violation,
  invalid_availability_transition, Ended, committed, rolled_back, with_row, next_id, made, remember,
}
use dazat_mobility.Dispatch.Registry.{EligibilityQuery}
use dazat_mobility.Dispatch.Lookup.{
  DispatchActor, InternalEligibility, availability_of, read_driver_eligibility, status_or_offline,
}
use dazat_mobility.Dispatch.Steps.{World, answer_and_attribute, is_offered, or_rollback}
use dazat_mobility.Dispatch.Shifts.{record_driver_shift_availability_event}
use dazat_mobility.Dispatch.Offers.{or_stored}
use dazat_mobility.Dispatch.Claims.{
  OnlineClaim, SetDriverAvailabilityRequest, check_claim, check_online, claim_of, plain_query,
  set_before,
}

-- The row that the INSERT proposes.
unfoldable pub proposed :
    World → ℕ → DriverAvailabilityStatus → ℕ → Option OnlineClaim → AvailabilityRow
unfolding trim
proposed world driver desired version none = record {
  driver_id = driver;
  status = desired;
  version = version;
  region_code = none;
  vehicle_id = none;
  location_observed_at = none;
  location_confidence = none;
}
proposed world driver desired version (some claim) = record {
  driver_id = driver;
  status = desired;
  version = version;
  region_code = some (world.upper (trim claim.region_code));
  vehicle_id = some claim.vehicle_id;
  location_observed_at = some claim.location.observed_at;
  location_confidence = some claim.location.confidence;
}

abbrev has_place : Option Text → Option ℕ → Bool
has_place (some region) (some vehicle) = true
has_place _ _ = false

-- CHECK (status = 'OFFLINE' OR (region_code IS NOT NULL AND vehicle_id IS NOT NULL)) of
-- driver.availability_state, which PostgreSQL tests on the proposed row before ON CONFLICT.
unfoldable pub row_is_checked : AvailabilityRow → Bool
unfolding DriverAvailabilityStatus-discrete
row_is_checked r =
    same DriverAvailabilityStatus-discrete r.status offline || has_place r.region_code r.vehicle_id

abbrev coalesce {ℓ} : {A : Type ℓ} → Option A → Option A → Option A
coalesce none old = old
coalesce (some new) old = some new

-- The row after ON CONFLICT DO UPDATE.
abbrev merged_fields : AvailabilityRow → AvailabilityRow → AvailabilityRow
merged_fields new old = record new {
  region_code = coalesce new.region_code old.region_code;
  vehicle_id = coalesce new.vehicle_id old.vehicle_id;
  location_observed_at = coalesce new.location_observed_at old.location_observed_at;
  location_confidence = coalesce new.location_confidence old.location_confidence;
}

abbrev cleared : AvailabilityRow → AvailabilityRow
cleared new = record new {
  region_code = none;
  vehicle_id = none;
  location_observed_at = none;
  location_confidence = none;
}

unfoldable merged : AvailabilityRow → AvailabilityRow → AvailabilityRow
unfolding DriverAvailabilityStatus-discrete
merged new old =
    if same DriverAvailabilityStatus-discrete new.status offline
    then cleared new
    else merged_fields new old

-- The row after the upsert.
unfoldable pub upserted : AvailabilityRow → Option AvailabilityRow → AvailabilityRow
unfolding merged
upserted new none = new
upserted new (some old) = merged new old

abbrev put_row :
    AvailabilityRow → Option AvailabilityRow → List AvailabilityRow → List AvailabilityRow
put_row row none rows = rows ++ row ∷ []
put_row row (some old) rows = update_where (λ r. r.driver_id == row.driver_id) (λ _. row) rows

abbrev pub next_version : Option AvailabilityRow → ℕ
next_version none = 1
next_version (some row) = row.version + 1

-- The upsert and the transition.
unfoldable pub store_intent : AvailabilityRow → Option AvailabilityRow → ℕ → Market → Market
store_intent row old command m = record m {
  availability = put_row row old m.availability;
  availability_transitions =
      m.availability_transitions
      ++ record {
        driver_id = row.driver_id;
        from_status = status_or_offline old;
        to_status = row.status;
        version = row.version;
        command_id = command;
      }
        ∷ [];
}

abbrev pub stops_work : DriverAvailabilityStatus → Bool
stops_work break = true
stops_work offline = true
stops_work _ = false

unfoldable pub withdraw_offers : ℕ → DriverAvailabilityStatus → Market → Market
unfolding answer_and_attribute
withdraw_offers driver desired m =
    if stops_work desired
    then answer_and_attribute (λ o. o.driver_id == driver && is_offered o.status) withdrawn
        OfferOutcome.withdrawn driver_work_intent_change m
    else m

unfoldable pub summary_query : AvailabilityRow → EligibilityQuery
unfolding DriverAvailabilityStatus-discrete
summary_query row =
    if same DriverAvailabilityStatus-discrete row.status offline
    then plain_query none none
    else plain_query row.vehicle_id row.region_code

abbrev pub availability_summary : AvailabilityRow → InternalEligibility → DriverAvailabilitySummary
availability_summary row found = record {
  driver_id = row.driver_id;
  status = row.status;
  version = row.version;
  region_code = row.region_code;
  vehicle_id = row.vehicle_id;
  location_observed_at = row.location_observed_at;
  eligible = found.decision.eligible;
  blockers = found.decision.blockers;
}

unfoldable pub may_become : DriverAvailabilityStatus → DriverAvailabilityStatus → Bool
unfolding can_transition_driver_availability DriverAvailabilityStatus-discrete
may_become from to =
    same DriverAvailabilityStatus-discrete from to || can_transition_driver_availability from to

-- The response and its command.
abbrev pub summarised :
    ℕ → Text → AvailabilityRow → Market → InternalEligibility → DriverAvailabilitySummary × Market
summarised driver key row after found =
    let summary = availability_summary row found in
    (summary, remember key driver (set_availability summary) after)

-- The statements after the tests: the upsert, the transition, the shift and the offers.
unfoldable pub store_change :
    World
    → DispatchActor
    → ℕ
    → AvailabilityRow
    → Option AvailabilityRow
    → Text
    → Market
    → Result DispatchError (DriverAvailabilitySummary × Market)
unfolding store_intent record_driver_shift_availability_event withdraw_offers
    read_driver_eligibility summary_query
store_change world actor driver row old key m = do
  shifted ←
      record_driver_shift_availability_event driver (status_or_offline old) row.status row.version
        row.region_code row.vehicle_id (next_id m) (store_intent row old (next_id m) (made 1 m))
  let after = withdraw_offers driver row.status shifted
  found ←
      read_driver_eligibility world.registry world.config after world.now driver
        actor.account_active (summary_query row) []
  ok (summarised driver key row after found)

-- The statements after the command was looked up.
unfoldable pub change_availability :
    World
    → DispatchActor
    → ℕ
    → DriverAvailabilityStatus
    → Option OnlineClaim
    → Text
    → Market
    → Result DispatchError (DriverAvailabilitySummary × Market)
unfolding check_online store_change proposed upserted row_is_checked may_become
change_availability world actor driver desired claim key m = do
  let old = availability_of m driver
  let new = proposed world driver desired (next_version old) claim
  require (may_become (status_or_offline old) desired) invalid_availability_transition
  check_claim world actor driver (status_or_offline old) claim m
  require (row_is_checked new) check_violation
  store_change world actor driver (upserted new old) old key m

abbrev pub ended_with : {A : Type 0} → Result DispatchError (A × Market) → Ended A
ended_with (ok (a, after)) = committed (ok a) after
ended_with (err e) = rolled_back e

unfoldable pub set_driver_availability :
    World
    → DispatchActor
    → SetDriverAvailabilityRequest
    → Text
    → Market
    → Ended DriverAvailabilitySummary
unfolding set_before change_availability
set_driver_availability world actor request key m =
    with_row actor.driver_profile_id forbidden (λ driver. or_rollback (claim_of request) (λ claim.
      or_stored (set_before m.commands driver key) m
        (ended_with (change_availability world actor driver request.status claim key m))))
