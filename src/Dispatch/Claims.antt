-- ===== src/Dispatch/Claims.antt =====
-- services/api/src/modules/dispatch/dispatch-service.ts: the claims of setDriverAvailability to go online.
use dazat_mobility.Base.{
  ℕ, ◌+◌, Bool, true, false, ◌||◌, not, Option, none, some, List, [], ◌∷◌, ◌++◌, if◌then◌else◌,
  includes, is_empty, keep, distinct, collect, Date, invalid, at, before, ms_between, Number,
  natural, less, scale,
}
use dazat_mobility.Base.Texts.{Text, text_eq}
use dazat_mobility.Base.Results.{Result, ok, err, require, ◌>>=◌, ◌>>◌}
use dazat_mobility.Dispatch.Availability.{
  DriverAvailabilityStatus, offline, available, finishing_soon,
}
use dazat_mobility.Dispatch.Eligibility.{
  DriverEligibilityBlocker, vehicle_not_authorised, location_missing, location_stale,
  location_confidence_low, not_available, fatigue_safety_blocked,
}
use dazat_mobility.Dispatch.Market.{
  DriverAvailabilitySummary, set_availability, DispatchCommandRow, Market, DispatchError,
  driver_not_eligible,
}
use dazat_mobility.Dispatch.Registry.{EligibilityQuery}
use dazat_mobility.Dispatch.Lookup.{DispatchActor, read_driver_eligibility}
use dazat_mobility.Dispatch.Steps.{World}
use dazat_mobility.Dispatch.Offers.{is_command}

unfoldable pub DriverEligibilityBlocker-discrete : Discrete DriverEligibilityBlocker
DriverEligibilityBlocker-discrete = hlevel

-- The time of a location is the date that its text stands for.
pub record LocationClaim : Type 0 where
  pub observed_at : Date
  pub confidence : Number

pub record SetDriverAvailabilityRequest : Type 0 where
  pub status : DriverAvailabilityStatus
  pub region_code : Option Text
  pub vehicle_id : Option ℕ
  pub location : Option LocationClaim

-- The vehicle, the region and the location of a request that goes online.
pub record OnlineClaim : Type 0 where
  pub region_code : Text
  pub vehicle_id : ℕ
  pub location : LocationClaim

abbrev going_online : DriverAvailabilityStatus → Bool
going_online available = true
going_online finishing_soon = true
going_online _ = false

abbrev claim_from : Option Text → Option ℕ → Option LocationClaim → Option OnlineClaim
claim_from (some (c ∷ region)) (some vehicle) (some location) =
    some (record { region_code = c ∷ region; vehicle_id = vehicle; location = location })
claim_from _ _ _ = none

abbrev online_claim : SetDriverAvailabilityRequest → Option OnlineClaim
online_claim request = claim_from request.region_code request.vehicle_id request.location

-- The claim where the request goes online, and what is missing.
abbrev pub claim_of : SetDriverAvailabilityRequest → Result DispatchError (Option OnlineClaim)
claim_of request =
    if going_online request.status
    then elim (online_claim request) [
      | none ↦ err (driver_not_eligible (vehicle_not_authorised ∷ location_missing ∷ []))
      | some claim ↦ ok (some claim)
    ]
    else ok none

unfoldable pub set_before : List DispatchCommandRow → ℕ → Text → Option DriverAvailabilitySummary
unfolding text_eq
set_before [] driver key = none
set_before (c ∷ rows) driver key =
    let rest = set_before rows driver key in
    elim c.response [
      | set_availability r ↦ if is_command key driver c then some r else rest
      | _ ↦ rest
    ]

abbrev ignored_before_shift : DriverAvailabilityStatus → List DriverEligibilityBlocker
ignored_before_shift offline =
    not_available ∷ location_missing ∷ location_stale ∷ location_confidence_low
    ∷ fatigue_safety_blocked ∷ []
ignored_before_shift _ =
    not_available ∷ location_missing ∷ location_stale ∷ location_confidence_low ∷ []

-- observedAt > now + 30_000
abbrev ahead_of : Date → Date → Bool
ahead_of (at observed) (at now) = before (at (now + 30_000)) (at observed)
ahead_of _ _ = false

unfoldable online_blockers :
    World
    → DriverAvailabilityStatus
    → LocationClaim
    → List DriverEligibilityBlocker
    → List DriverEligibilityBlocker
unfolding DriverEligibilityBlocker-discrete
online_blockers world from location found =
    let max_age = scale world.config.location_max_age_seconds 1_000 in
    keep (λ b. not (includes DriverEligibilityBlocker-discrete (ignored_before_shift from) b)) found
    ++ collect (
        (less max_age (ms_between world.now location.observed_at), location_stale)
        ∷ (ahead_of location.observed_at world.now, location_stale)
        ∷ (
          less location.confidence world.config.minimum_location_confidence,
          location_confidence_low,
        )
        ∷ [])

abbrev is_date : Date → Bool
is_date invalid = false
is_date (at _) = true

abbrev pub plain_query : Option ℕ → Option Text → EligibilityQuery
plain_query vehicle region = record {
  vehicle_id = vehicle;
  region_code = region;
  services = [];
  service_at = none;
  excluded_booking = none;
}

-- The tests of a claim to go online.
unfoldable pub check_online :
    World
    → DispatchActor
    → ℕ
    → DriverAvailabilityStatus
    → OnlineClaim
    → Market
    → Result DispatchError (Unit {0})
unfolding read_driver_eligibility online_blockers DriverEligibilityBlocker-discrete
check_online world actor driver from claim m = do
  require (is_date claim.location.observed_at) (driver_not_eligible (location_missing ∷ []))
  require
      (not
        (less claim.location.confidence (natural 0) || less (natural 1) claim.location.confidence))
      (driver_not_eligible (location_confidence_low ∷ []))
  found ←
      read_driver_eligibility world.registry world.config m world.now driver actor.account_active
        (plain_query (some claim.vehicle_id) (some claim.region_code)) []
  let blockers = online_blockers world from claim.location found.decision.blockers
  require (is_empty blockers)
      (driver_not_eligible (distinct DriverEligibilityBlocker-discrete [] blockers))

abbrev pub check_claim :
    World
    → DispatchActor
    → ℕ
    → DriverAvailabilityStatus
    → Option OnlineClaim
    → Market
    → Result DispatchError (Unit {0})
check_claim world actor driver from none m = ok tt
check_claim world actor driver from (some claim) m = check_online world actor driver from claim m
