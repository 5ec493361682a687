-- ===== src/Dispatch/Offers.antt =====
-- services/api/src/modules/dispatch/dispatch-service.ts: declineDriverOffer and
-- listDriverOffers.
use dazat_mobility.Base.{
  ℕ, Bool, true, false, ◌&&◌, not, Option, none, some, List, [], ◌∷◌, ◌==◌, if◌then◌else◌, keep,
  Date, not_after, before,
}
use dazat_mobility.Base.Texts.{Text, text_eq}
use dazat_mobility.Base.Results.{ok}
use dazat_mobility.Dispatch.Availability.{declined, expired}
use dazat_mobility.Dispatch.Market.{
  ResponseReason, ttl_expired, OfferRow, OfferOutcome, driver_offer_declined,
  DeclineDriverOfferResult, offer_declined, DispatchCommandRow, Market, not_found, forbidden,
  conflict, unique_violation, Ended, committed, ensure, with_row, next_id, made, message, remember,
  attributed,
}
use dazat_mobility.Dispatch.Lookup.{DispatchActor}
use dazat_mobility.Dispatch.Steps.{
  World, answer_and_attribute, answer_offers, attribute, attribution, find_offer, is_offered,
}

-- The response that a command of the type stored for its subject and key.
abbrev pub is_command : Text → ℕ → DispatchCommandRow → Bool
is_command key subject c = c.subject_id == subject && text_eq c.idempotency_key key

unfoldable pub declined_before :
    List DispatchCommandRow → ℕ → Text → Option DeclineDriverOfferResult
unfolding text_eq
declined_before [] driver key = none
declined_before (c ∷ rows) driver key =
    let rest = declined_before rows driver key in
    elim c.response [
      | offer_declined r ↦ if is_command key driver c then some r else rest
      | _ ↦ rest
    ]

-- The actor's offer, found by both commands.
abbrev pub own_offer :
    {A : Type 0} → DispatchActor → ℕ → Market → (ℕ → OfferRow → Ended A) → Ended A
own_offer actor offer m rest = with_row actor.driver_profile_id forbidden (λ driver.
    with_row (find_offer m offer) not_found
      (λ o. ensure (o.driver_id == driver) forbidden (rest driver o)))

abbrev decline_response : OfferRow → Date → DeclineDriverOfferResult
decline_response o now = record {
  offer_id = o.id;
  declined_at = now;
  acceptance_rate_penalty_applied = false;
}

unfoldable pub store_decline : World → ℕ → OfferRow → ResponseReason → Text → Market → Market
store_decline world driver o reason key m = message o.id driver_offer_declined (next_id m) (
    remember key driver (offer_declined (decline_response o world.now)) (
      attribute (attribution o.id driver OfferOutcome.declined (some reason) true)
        (answer_offers (λ r. r.id == o.id) declined (some reason) (made 1 m))))

abbrev pub decline_fresh :
    World → ℕ → OfferRow → ResponseReason → Text → Market → Ended DeclineDriverOfferResult
decline_fresh world driver o reason key m = ensure (is_offered o.status) conflict (
    ensure (not (not_after o.expires_at world.now)) conflict (
      ensure (not (attributed o.id m.attributions)) unique_violation (
        committed (ok (decline_response o world.now)) (store_decline world driver o reason key m))))

abbrev pub or_stored : {A : Type 0} → Option A → Market → Ended A → Ended A
or_stored none m rest = rest
or_stored (some r) m rest = committed (ok r) m

unfoldable pub decline_driver_offer :
    World → DispatchActor → ℕ → ResponseReason → Text → Market → Ended DeclineDriverOfferResult
unfolding store_decline declined_before
decline_driver_offer world actor offer reason key m = own_offer actor offer m (λ driver o.
    or_stored (declined_before m.commands driver key) m (decline_fresh world driver o reason key m))

abbrev pub is_lapsed : ℕ → Date → OfferRow → Bool
is_lapsed driver now r =
    r.driver_id == driver && (is_offered r.status && not_after r.expires_at now)

-- The sweep of listDriverOffers: one statement, outside a transaction.
unfoldable pub expire_lapsed_offers : World → ℕ → Market → Market
unfolding answer_and_attribute
expire_lapsed_offers world driver m =
    answer_and_attribute (is_lapsed driver world.now) expired OfferOutcome.timed_out ttl_expired m

abbrev is_open_offer : ℕ → Date → OfferRow → Bool
is_open_offer driver now r =
    r.driver_id == driver && (is_offered r.status && before now r.expires_at)

-- The rows that are listed, in the order in which the offers were made.
unfoldable pub list_driver_offers : World → DispatchActor → Market → Ended (List OfferRow)
unfolding expire_lapsed_offers
list_driver_offers world actor m = with_row actor.driver_profile_id forbidden (λ driver.
    let after = expire_lapsed_offers world driver m in
    committed (ok (keep (is_open_offer driver world.now) after.offers)) after)
