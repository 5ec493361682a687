-- ===== src/Dispatch/Exclusive/Acceptance.antt =====
-- services/api/src/modules/dispatch/dispatch-service.ts: acceptDriverOffer keeps the invariant of
-- Dispatch.
use dazat_mobility.Base.{ℕ, ◌+◌, true, not, some, ◌≡◌, refl, not_after}
use dazat_mobility.Base.Texts.{Text}
use dazat_mobility.Base.Results.{ok}
use dazat_mobility.Booking.Status.{searching_for_driver}
use dazat_mobility.Dispatch.Availability.{withdrawn, expired}
use dazat_mobility.Dispatch.Market.{
  AcceptDriverOfferResult, conflict, unique_violation, attributed, driver_became_ineligible,
  OfferRow, ttl_expired, Market, next_id, made, Ended, settled,
}
use dazat_mobility.Dispatch.Lookup.{DispatchActor, InternalEligibility, read_driver_eligibility}
use dazat_mobility.Dispatch.Steps.{
  BookingDispatchContext, World, find_offer, has_status, is_offered, read_booking_context,
}
use dazat_mobility.Dispatch.Accept.{
  accept_actionable, accept_decided, accept_driver_offer, accept_fresh, accept_response,
  acceptance_query, allows, finish_acceptance,
}
use dazat_mobility.Dispatch.Assigning.{
  accepted_before, assign, attempt_is_offering, expire_offer, store_assignment, withdraw_ineligible,
}
use dazat_mobility.Dispatch.Rules.{
  After, After-if, After-ensure, After-or_rollback, After-or_stored, After-own_offer,
}
use dazat_mobility.Dispatch.Exclusive.{IsExclusive, Kept, Untouched-Kept, Kept-IsExclusive}
use dazat_mobility.Dispatch.Offers.{or_stored}
use dazat_mobility.Dispatch.Exclusive.Offers.{found_again}
use dazat_mobility.Dispatch.Exclusive.Answers.{answer-Kept}
use dazat_mobility.Dispatch.Exclusive.Assignment.{
  made-Kept, assign-Untouched, store_assignment-IsExclusive,
}

-- What an acceptance stores keeps the invariant.
assign-IsExclusive :
    (actor : DispatchActor) (driver : ℕ) (o : OfferRow) (booking : BookingDispatchContext)
    (m after : Market)
    → IsExclusive m
    → find_offer m o.id ≡ some o
    → is_offered o.status ≡ true
    → attempt_is_offering m o.attempt_id ≡ true
    → assign actor driver o booking m ≡ ok after
    → IsExclusive after
assign-IsExclusive actor driver o booking m after inv found unanswered lasting h =
    let stored = store_assignment (next_id m + 2) driver o (made 4 m) in
    Kept-IsExclusive stored after
      (Untouched-Kept stored after (assign-Untouched actor driver o booking m after h))
      (store_assignment-IsExclusive (next_id m + 2) driver o (made 4 m)
        (Kept-IsExclusive m (made 4 m) (made-Kept 4 m) inv) found unanswered lasting)

-- The expired offer and the withdrawn one.
expire_offer-Kept :
    (driver : ℕ) (o : OfferRow) (m : Market)
    → IsExclusive m
    → find_offer m o.id ≡ some o
    → is_offered o.status ≡ true
    → Kept m (expire_offer driver o m)
unfolding expire_offer
expire_offer-Kept driver o m inv found unanswered =
    let k = answer-Kept expired (some ttl_expired) m o.id o inv refl found unanswered in
    record {
      later = k.later;
      same_accepted = k.same_accepted;
      same_assignments = k.same_assignments;
      same_open = k.same_open;
      same_rows = k.same_rows;
      same_numbers = k.same_numbers;
    }

withdraw_ineligible-Kept :
    (driver : ℕ) (o : OfferRow) (m : Market)
    → IsExclusive m
    → find_offer m o.id ≡ some o
    → is_offered o.status ≡ true
    → Kept m (withdraw_ineligible driver o m)
unfolding withdraw_ineligible
withdraw_ineligible-Kept driver o m inv found unanswered =
    let k =
      answer-Kept withdrawn (some driver_became_ineligible) m o.id o inv refl found unanswered in
    record {
      later = k.later;
      same_accepted = k.same_accepted;
      same_assignments = k.same_assignments;
      same_open = k.same_open;
      same_rows = k.same_rows;
      same_numbers = k.same_numbers;
    }

finish_acceptance-IsExclusive :
    (response : AcceptDriverOfferResult) (command driver : ℕ) (key : Text) (m before : Market)
    → IsExclusive m
    → After IsExclusive before (finish_acceptance response command driver key m)
finish_acceptance-IsExclusive response command driver key m before inv = record {
  one_winner = inv.one_winner;
  winners_assigned = inv.winners_assigned;
  one_row = inv.one_row;
  numbered = inv.numbered;
}

-- An open offer of an open attempt.
module _ (world : World) (actor : DispatchActor) (driver : ℕ) (o : OfferRow) (key : Text)
    (m : Market) (inv : IsExclusive m) (found : find_offer m o.id ≡ some o) where
  accept_decided-IsExclusive :
      (booking : BookingDispatchContext) (decided : InternalEligibility)
      → attempt_is_offering m o.attempt_id ≡ true
      → is_offered o.status ≡ true
      → After IsExclusive m (accept_decided world actor driver o booking key m decided)
  accept_decided-IsExclusive booking decided lasting unanswered =
      After-if IsExclusive m inv decided.decision.eligible _ _
        (λ eligible.
          After-or_rollback IsExclusive m inv (assign actor driver o booking m) _ (λ after h.
            finish_acceptance-IsExclusive (accept_response (next_id m + 2) o driver world.now)
              (next_id m) driver key after m
              (assign-IsExclusive actor driver o booking m after inv found unanswered lasting h)))
        (λ blocked.
          After-ensure IsExclusive m inv (not (attributed o.id m.attributions)) unique_violation _
            (λ fresh.
              Kept-IsExclusive m (withdraw_ineligible driver o m)
                (withdraw_ineligible-Kept driver o m inv found unanswered) inv))

  accept_actionable-IsExclusive :
      attempt_is_offering m o.attempt_id ≡ true
      → is_offered o.status ≡ true
      → After IsExclusive m (accept_actionable world actor driver o key m)
  accept_actionable-IsExclusive lasting unanswered =
      After-or_rollback IsExclusive m inv (read_booking_context world m.store o.booking_id) _
        (λ booking read.
          After-ensure IsExclusive m inv (has_status searching_for_driver booking.status) conflict _
            (λ searching.
              After-or_rollback IsExclusive m inv
                (read_driver_eligibility world.registry world.config m world.now driver
                  actor.account_active (acceptance_query world o booking) booking.requirements)
                _
                (λ decided read_too.
                  accept_decided-IsExclusive booking decided lasting unanswered)))

  accept_fresh-IsExclusive : After IsExclusive m (accept_fresh world actor driver o key m)
  accept_fresh-IsExclusive =
      After-ensure IsExclusive m inv (attempt_is_offering m o.attempt_id) conflict _ (λ lasting.
        After-ensure IsExclusive m inv (is_offered o.status) conflict _ (λ unanswered.
          After-if IsExclusive m inv (not_after o.expires_at world.now) _ _
            (λ lapsed.
              Kept-IsExclusive m (expire_offer driver o m)
                (expire_offer-Kept driver o m inv found unanswered) inv)
            (λ current.
              After-ensure IsExclusive m inv (allows o.acceptance_allowed) conflict _
                (λ informed. accept_actionable-IsExclusive lasting unanswered))))

abbrev accept_rest :
    World → DispatchActor → Text → Market → ℕ → OfferRow → Ended AcceptDriverOfferResult
accept_rest world actor key m driver o =
    or_stored (accepted_before m.commands driver key) m (accept_fresh world actor driver o key m)

pub accept_driver_offer-IsExclusive :
    (world : World) (actor : DispatchActor) (offer : ℕ) (key : Text) (m : Market)
    → IsExclusive m
    → IsExclusive (settled m (accept_driver_offer world actor offer key m)).1
unfolding accept_driver_offer
accept_driver_offer-IsExclusive world actor offer key m inv =
    After-own_offer IsExclusive m inv actor offer (accept_rest world actor key m) (λ driver o found.
      After-or_stored IsExclusive m inv (accepted_before m.commands driver key)
        (accept_fresh world actor driver o key m)
        (accept_fresh-IsExclusive world actor driver o key m inv (found_again m offer o found)))
