-- ===== src/Dispatch/Exclusive/Offers.antt =====
-- services/api/src/modules/dispatch/dispatch-service.ts: declineDriverOffer, listDriverOffers and
-- setDriverAvailability keep the invariant of Dispatch.
use dazat_mobility.Base.{
  ℕ, true, ◌&&◌, Option, some, [], ◌==◌, ◌≡◌, refl, sym, subst, not, not_after, inl, inr, arith,
  Bool-cases, Option-cases,
}
use dazat_mobility.Base.Texts.{Text}
use dazat_mobility.Base.Results.{ok, require, after_checks, Result-cases}
use dazat_mobility.Dispatch.Availability.{DriverAvailabilityStatus, declined, expired, withdrawn}
use dazat_mobility.Dispatch.Market.{
  OfferRow, unique_violation, check_violation, invalid_availability_transition, forbidden,
  attributed, set_availability, AvailabilityRow, DispatchResponse, remember, conflict,
  ResponseReason, OfferOutcome, ttl_expired, driver_work_intent_change, Market, next_id, settled,
  DriverAvailabilitySummary, made, Ended, DeclineDriverOfferResult,
}
use dazat_mobility.Dispatch.Lookup.{
  DispatchActor, availability_of, read_driver_eligibility, status_or_offline,
}
use dazat_mobility.Dispatch.Steps.{World, find_offer, is_offered, or_rollback}
use dazat_mobility.Dispatch.Shifts.{record_driver_shift_availability_event}
use dazat_mobility.Dispatch.Offers.{
  decline_driver_offer, decline_fresh, or_stored, store_decline, list_driver_offers,
  expire_lapsed_offers, is_lapsed, declined_before,
}
use dazat_mobility.Dispatch.Intent.{
  availability_summary, change_availability, ended_with, may_become, next_version, proposed,
  row_is_checked, set_driver_availability, stops_work, store_change, store_intent, summarised,
  summary_query, upserted, withdraw_offers,
}
use dazat_mobility.Dispatch.Claims.{
  OnlineClaim, SetDriverAvailabilityRequest, check_claim, claim_of, set_before,
}
use dazat_mobility.Dispatch.Counting.{first_of-satisfies}
use dazat_mobility.Dispatch.Rules.{
  After-ensure, After-with_row, After-or_rollback, After-or_stored, After-ended_with,
  After-own_offer,
}
use dazat_mobility.Dispatch.Exclusive.{
  IsExclusive, Kept, Untouched, Kept-IsExclusive, Kept-then, Untouched-Kept, Untouched-then,
}
use dazat_mobility.Dispatch.Exclusive.Answers.{
  answer-Kept, answer_and_attribute-Kept, shift-Untouched,
}

abbrev decline_rest :
    World → ResponseReason → Text → Market → ℕ → OfferRow → Ended DeclineDriverOfferResult
decline_rest world reason key m driver o =
    or_stored (declined_before m.commands driver key) m (decline_fresh world driver o reason key m)

pub found_again :
    (m : Market) (i : ℕ) (o : OfferRow) → find_offer m i ≡ some o → find_offer m o.id ≡ some o
found_again m i o found =
    let same_id = first_of-satisfies (λ r. r.id == i) m.offers o found in
    let same : o.id ≡ i = ground arith in subst (λ k. find_offer m k ≡ some o) (sym same) found

store_decline-Kept :
    (world : World) (driver : ℕ) (o : OfferRow) (reason : ResponseReason) (key : Text) (m : Market)
    → IsExclusive m
    → find_offer m o.id ≡ some o
    → is_offered o.status ≡ true
    → Kept m (store_decline world driver o reason key m)
unfolding store_decline
store_decline-Kept world driver o reason key m inv found unanswered =
    let k = answer-Kept declined (some reason) m o.id o inv refl found unanswered in
    record {
      later = omega arith;
      same_accepted = k.same_accepted;
      same_assignments = k.same_assignments;
      same_open = k.same_open;
      same_rows = k.same_rows;
      same_numbers = k.same_numbers;
    }

expire_lapsed-Kept :
    (world : World) (driver : ℕ) (m : Market) → Kept m (expire_lapsed_offers world driver m)
unfolding expire_lapsed_offers
expire_lapsed-Kept world driver m =
    answer_and_attribute-Kept (is_lapsed driver world.now) expired OfferOutcome.timed_out
      ttl_expired m refl (λ o h. ground arith)

-- Listing the offers of a Driver keeps the invariant.
pub list_driver_offers-IsExclusive :
    (world : World) (actor : DispatchActor) (m : Market)
    → IsExclusive m
    → IsExclusive (settled m (list_driver_offers world actor m)).1
unfolding list_driver_offers
list_driver_offers-IsExclusive world actor m inv = elim (Option-cases actor.driver_profile_id) [
  | inl gone ↦ rw gone inv
  | inr (driver, known) ↦ rw known (
      Kept-IsExclusive m (expire_lapsed_offers world driver m) (expire_lapsed-Kept world driver m)
        inv)
]

withdraw_offers-Kept :
    (driver : ℕ) (desired : DriverAvailabilityStatus) (m : Market)
    → Kept m (withdraw_offers driver desired m)
unfolding withdraw_offers
withdraw_offers-Kept driver desired m =
    let k =
      answer_and_attribute-Kept (λ o. o.driver_id == driver && is_offered o.status) withdrawn
        OfferOutcome.withdrawn driver_work_intent_change m refl (λ o h. ground arith) in
    elim (Bool-cases (stops_work desired)) [
      | inl stops ↦ rw stops k
      | inr goes ↦ rw goes (
          Untouched-Kept m m
            (record { later = omega arith; offers = refl; assignments = refl; attempts = refl }))
    ]

store_intent-Untouched :
    (row : AvailabilityRow) (old : Option AvailabilityRow) (command : ℕ) (m : Market)
    → Untouched m (store_intent row old command (made 1 m))
unfolding store_intent
store_intent-Untouched row old command m = record {
  later = omega arith;
  offers = refl;
  assignments = refl;
  attempts = refl;
}

remember-Kept :
    (key : Text) (subject : ℕ) (response : DispatchResponse) (m after : Market)
    → Kept m after
    → Kept m (remember key subject response after)
remember-Kept key subject response m after k = record {
  later = k.later;
  same_accepted = k.same_accepted;
  same_assignments = k.same_assignments;
  same_open = k.same_open;
  same_rows = k.same_rows;
  same_numbers = k.same_numbers;
}

-- What a change of the availability stores keeps what the invariant sees.
store_change-Kept :
    (world : World) (actor : DispatchActor) (driver : ℕ) (row : AvailabilityRow)
    (old : Option AvailabilityRow) (key : Text) (m : Market) (summary : DriverAvailabilitySummary)
    (after : Market)
    → store_change world actor driver row old key m ≡ ok (summary, after)
    → Kept m after
unfolding store_change
store_change-Kept world actor driver row old key m summary after h =
    let stored = store_intent row old (next_id m) (made 1 m) in
    elim (Result-cases (
      record_driver_shift_availability_event driver (status_or_offline old) row.status row.version
        row.region_code row.vehicle_id (next_id m) stored)) [
          | inr (e, failed) ↦ absurd (ground arith)
          | inl (shifted, moved) ↦
              elim (Result-cases (
                read_driver_eligibility world.registry world.config
                  (withdraw_offers driver row.status shifted) world.now driver actor.account_active
                  (summary_query row) [])) [
                    | inr (e, failed) ↦ absurd (ground arith)
                    | inl (found, read) ↦
                        let gone = withdraw_offers driver row.status shifted in
                        let same : (summarised driver key row gone found).1 ≡ after =
                          ground arith in
                        let moved_kept = Untouched-Kept m shifted (
                          Untouched-then m stored shifted
                            (store_intent-Untouched row old (next_id m) m)
                            (shift-Untouched driver (status_or_offline old) row.status row.version
                              row.region_code row.vehicle_id (next_id m) stored shifted moved)) in
                        subst (Kept m) same (
                          remember-Kept key driver
                            (set_availability (availability_summary row found)) m gone
                            (Kept-then m shifted gone moved_kept
                              (withdraw_offers-Kept driver row.status shifted)))
                  ]
        ]

change-Kept :
    (world : World) (actor : DispatchActor) (driver : ℕ) (desired : DriverAvailabilityStatus)
    (claim : Option OnlineClaim) (key : Text) (m : Market) (summary : DriverAvailabilitySummary)
    (after : Market)
    → change_availability world actor driver desired claim key m ≡ ok (summary, after)
    → Kept m after
unfolding change_availability
change-Kept world actor driver desired claim key m summary after h =
    let old = availability_of m driver in
    let row = upserted (proposed world driver desired (next_version old) claim) old in
    store_change-Kept world actor driver row old key m summary after (
      after_checks
        (require (may_become (status_or_offline old) desired) invalid_availability_transition)
        (check_claim world actor driver (status_or_offline old) claim m)
        (require (row_is_checked (proposed world driver desired (next_version old) claim))
          check_violation)
        (store_change world actor driver row old key m) (summary, after) h)

abbrev changed :
    World
    → DispatchActor
    → SetDriverAvailabilityRequest
    → Text
    → Market
    → ℕ
    → Option OnlineClaim
    → Ended DriverAvailabilitySummary
changed world actor request key m driver claim =
    or_stored (set_before m.commands driver key) m
      (ended_with (change_availability world actor driver request.status claim key m))

abbrev claimed :
    World
    → DispatchActor
    → SetDriverAvailabilityRequest
    → Text
    → Market
    → ℕ
    → Ended DriverAvailabilitySummary
claimed world actor request key m driver =
    or_rollback (claim_of request) (changed world actor request key m driver)

pub set_driver_availability-IsExclusive :
    (world : World) (actor : DispatchActor) (request : SetDriverAvailabilityRequest) (key : Text)
    (m : Market)
    → IsExclusive m
    → IsExclusive (settled m (set_driver_availability world actor request key m)).1
unfolding set_driver_availability
set_driver_availability-IsExclusive world actor request key m inv =
    After-with_row IsExclusive m inv actor.driver_profile_id forbidden
      (claimed world actor request key m)
      (λ driver known.
        After-or_rollback IsExclusive m inv (claim_of request)
          (changed world actor request key m driver)
          (λ claim made_claim.
            After-or_stored IsExclusive m inv (set_before m.commands driver key)
              (ended_with (change_availability world actor driver request.status claim key m))
              (After-ended_with IsExclusive m inv
                (change_availability world actor driver request.status claim key m)
                (λ summary after h.
                  Kept-IsExclusive m after
                    (change-Kept world actor driver request.status claim key m summary after h)
                    inv))))

pub decline_driver_offer-IsExclusive :
    (world : World) (actor : DispatchActor) (offer : ℕ) (reason : ResponseReason) (key : Text)
    (m : Market)
    → IsExclusive m
    → IsExclusive (settled m (decline_driver_offer world actor offer reason key m)).1
unfolding decline_driver_offer
decline_driver_offer-IsExclusive world actor offer reason key m inv =
    After-own_offer IsExclusive m inv actor offer (decline_rest world reason key m)
      (λ driver o found.
        After-or_stored IsExclusive m inv (declined_before m.commands driver key)
          (decline_fresh world driver o reason key m)
          (After-ensure IsExclusive m inv (is_offered o.status) conflict _ (λ unanswered.
            After-ensure IsExclusive m inv (not (not_after o.expires_at world.now)) conflict _
              (λ lasting.
                After-ensure IsExclusive m inv (not (attributed o.id m.attributions))
                  unique_violation _
                  (λ fresh.
                    Kept-IsExclusive m (store_decline world driver o reason key m)
                      (store_decline-Kept world driver o reason key m inv
                        (found_again m offer o found) unanswered)
                      inv)))))
