-- ===== src/Dispatch/Accept.antt =====
-- services/api/src/modules/dispatch/dispatch-service.ts: acceptDriverOffer; what it stores is in
-- Assigning.
use dazat_mobility.Base.{
  ℕ, ◌+◌, Bool, true, false, not, Option, none, some, if◌then◌else◌, Date, not_after,
}
use dazat_mobility.Base.Texts.{Text}
use dazat_mobility.Base.Results.{ok, err}
use dazat_mobility.Booking.Status.{BookingStatus, searching_for_driver}
use dazat_mobility.Dispatch.Market.{
  OfferRow, MessageType, AcceptDriverOfferResult, offer_accepted, Market, conflict,
  unique_violation, driver_not_eligible, Ended, committed, ensure, next_id, message, remember,
  attributed,
}
use dazat_mobility.Dispatch.Evidence.{required_permission_service_codes}
use dazat_mobility.Dispatch.Registry.{EligibilityQuery}
use dazat_mobility.Dispatch.Lookup.{DispatchActor, InternalEligibility, read_driver_eligibility}
use dazat_mobility.Dispatch.Steps.{
  BookingDispatchContext, World, has_status, is_offered, or_rollback, read_booking_context,
}
use dazat_mobility.Dispatch.Offers.{own_offer, or_stored}
use dazat_mobility.Dispatch.Assigning.{
  accepted_before, assign, attempt_is_offering, expire_offer, withdraw_ineligible,
}

abbrev pub accept_response : ℕ → OfferRow → ℕ → Date → AcceptDriverOfferResult
accept_response assignment o driver now = record {
  offer_id = o.id;
  assignment_id = assignment;
  booking_id = o.booking_id;
  booking_status = BookingStatus.driver_assigned;
  driver_id = driver;
  vehicle_id = o.vehicle_id;
  assigned_at = now;
}

-- The message and the stored response.
abbrev pub finish_acceptance :
    AcceptDriverOfferResult → ℕ → ℕ → Text → Market → Ended AcceptDriverOfferResult
finish_acceptance response command driver key m = committed (ok response) (
    remember key driver (offer_accepted response)
      (message response.assignment_id MessageType.driver_assigned command m))

abbrev accept_eligible :
    World
    → DispatchActor
    → ℕ
    → OfferRow
    → BookingDispatchContext
    → Text
    → Market
    → Ended AcceptDriverOfferResult
accept_eligible world actor driver o booking key m =
    or_rollback (assign actor driver o booking m) (λ after.
      finish_acceptance (accept_response (next_id m + 2) o driver world.now) (next_id m) driver key
        after)

-- What follows the revalidation of the Driver: the withdrawal is committed before the throw.
abbrev pub accept_decided :
    World
    → DispatchActor
    → ℕ
    → OfferRow
    → BookingDispatchContext
    → Text
    → Market
    → InternalEligibility
    → Ended AcceptDriverOfferResult
accept_decided world actor driver o booking key m found =
    if found.decision.eligible
    then accept_eligible world actor driver o booking key m
    else ensure (not (attributed o.id m.attributions)) unique_violation (
        committed (err (driver_not_eligible found.decision.blockers))
          (withdraw_ineligible driver o m))

abbrev pub acceptance_query : World → OfferRow → BookingDispatchContext → EligibilityQuery
acceptance_query world o booking = record {
  vehicle_id = some o.vehicle_id;
  region_code = some booking.region_code;
  services = required_permission_service_codes world.upper booking.requirements;
  service_at = some (elim booking.scheduled_for [ none ↦ world.now | some d ↦ d ]);
  excluded_booking = some booking.booking_id;
}

abbrev pub accept_actionable :
    World → DispatchActor → ℕ → OfferRow → Text → Market → Ended AcceptDriverOfferResult
accept_actionable world actor driver o key m =
    or_rollback (read_booking_context world m.store o.booking_id) (λ booking.
      ensure (has_status searching_for_driver booking.status) conflict (
        or_rollback
          (read_driver_eligibility world.registry world.config m world.now driver
            actor.account_active (acceptance_query world o booking) booking.requirements)
          (accept_decided world actor driver o booking key m)))

abbrev pub allows : Option Bool → Bool
allows (some true) = true
allows _ = false

-- The expiry is committed before the throw.
abbrev pub accept_fresh :
    World → DispatchActor → ℕ → OfferRow → Text → Market → Ended AcceptDriverOfferResult
accept_fresh world actor driver o key m = ensure (attempt_is_offering m o.attempt_id) conflict (
    ensure (is_offered o.status) conflict (
      if not_after o.expires_at world.now
      then committed (err conflict) (expire_offer driver o m)
      else ensure (allows o.acceptance_allowed) conflict
          (accept_actionable world actor driver o key m)))

unfoldable pub accept_driver_offer :
    World → DispatchActor → ℕ → Text → Market → Ended AcceptDriverOfferResult
unfolding has_status accepted_before expire_offer withdraw_ineligible read_booking_context
    read_driver_eligibility required_permission_service_codes assign
accept_driver_offer world actor offer key m = own_offer actor offer m (λ driver o.
    or_stored (accepted_before m.commands driver key) m (accept_fresh world actor driver o key m))
