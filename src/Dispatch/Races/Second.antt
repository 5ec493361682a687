-- ===== src/Dispatch/Races/Second.antt =====
-- services/api/src/modules/dispatch/dispatch-service.ts: a second acceptance in an attempt.
use dazat_mobility.Base.{
  ℕ, ◌+◌, true, false, none, some, ◌==◌, ◌≡◌, ◌∙◌, refl, sym, inl, inr, arith,
}
use dazat_mobility.Base.Texts.{Text}
use dazat_mobility.Base.Results.{ok, Result-cases}
use dazat_mobility.Dispatch.Market.{
  OfferRow, AcceptDriverOfferResult, Market, conflict, committed, rolled_back, next_id, made,
}
use dazat_mobility.Dispatch.Lookup.{DispatchActor, InternalEligibility, read_driver_eligibility}
use dazat_mobility.Dispatch.Steps.{BookingDispatchContext, World, find_offer, read_booking_context}
use dazat_mobility.Dispatch.Accept.{
  accept_actionable, accept_decided, accept_driver_offer, accept_fresh, acceptance_query,
}
use dazat_mobility.Dispatch.Assigning.{accepted_before, assign, attempt_is_offering}
use dazat_mobility.Dispatch.Exclusive.Assignment.{assignment_closes, assign-Untouched}

-- The attempt of an offer takes no acceptance after an assignment.
assign_closes :
    (actor : DispatchActor) (driver : ℕ) (o : OfferRow) (booking : BookingDispatchContext)
    (m after : Market)
    → assign actor driver o booking m ≡ ok after
    → attempt_is_offering after o.attempt_id ≡ false
assign_closes actor driver o booking m after h =
    let quiet = assign-Untouched actor driver o booking m after h in
    let closes = assignment_closes (next_id m + 2) driver o (made 4 m) o.attempt_id in
    rw quiet.attempts (ground arith)

accept_decided_closes :
    (world : World) (actor : DispatchActor) (driver : ℕ) (o : OfferRow)
    (booking : BookingDispatchContext) (key : Text) (m : Market) (found : InternalEligibility)
    (r : AcceptDriverOfferResult) (after : Market)
    → accept_decided world actor driver o booking key m found ≡ committed (ok r) after
    → attempt_is_offering after o.attempt_id ≡ false
accept_decided_closes world actor driver o booking key m found r after h =
    elim (Result-cases (assign actor driver o booking m)) [
      | inr (e, failed) ↦ absurd (ground arith)
      | inl (stored, done) ↦
          let closed = assign_closes actor driver o booking m stored done in
          let same : after.attempts ≡ stored.attempts = ground arith in rw same closed
    ]

accept_actionable_closes :
    (world : World) (actor : DispatchActor) (driver : ℕ) (o : OfferRow) (key : Text) (m : Market)
    (r : AcceptDriverOfferResult) (after : Market)
    → accept_actionable world actor driver o key m ≡ committed (ok r) after
    → attempt_is_offering after o.attempt_id ≡ false
accept_actionable_closes world actor driver o key m r after h =
    elim (Result-cases (read_booking_context world m.store o.booking_id)) [
      | inr (e, failed) ↦ absurd (ground arith)
      | inl (booking, read) ↦
          elim (Result-cases (
            read_driver_eligibility world.registry world.config m world.now driver
              actor.account_active (acceptance_query world o booking) booking.requirements)) [
                | inr (e, failed) ↦ absurd (ground arith)
                | inl (found, decided) ↦
                    accept_decided_closes world actor driver o booking key m found r after
                      (ground arith)
              ]
    ]

accept_fresh_closes :
    (world : World) (actor : DispatchActor) (driver : ℕ) (o : OfferRow) (key : Text) (m : Market)
    (r : AcceptDriverOfferResult) (after : Market)
    → accept_fresh world actor driver o key m ≡ committed (ok r) after
    → attempt_is_offering after o.attempt_id ≡ false
accept_fresh_closes world actor driver o key m r after h =
    accept_actionable_closes world actor driver o key m r after (ground arith)

-- The own offer of an actor, with a key that the Driver did not use for an acceptance.
pub record IsFreshCall (actor : DispatchActor) (offer : ℕ) (key : Text) (m : Market) (driver : ℕ)
    (o : OfferRow) : Type 0 where
  pub known : actor.driver_profile_id ≡ some driver
  pub found : find_offer m offer ≡ some o
  pub own : (o.driver_id == driver) ≡ true
  pub unused : accepted_before m.commands driver key ≡ none

pub fresh_call :
    (world : World) (actor : DispatchActor) (offer : ℕ) (key : Text) (m : Market) (driver : ℕ)
    (o : OfferRow)
    → IsFreshCall actor offer key m driver o
    → accept_driver_offer world actor offer key m ≡ accept_fresh world actor driver o key m
unfolding accept_driver_offer
fresh_call world actor offer key m driver o call =
    rw (call.known, call.found, call.own, call.unused) refl

-- After an acceptance that returned, an acceptance of any offer of the same attempt, by any Driver
-- who calls it anew, is refused as a conflict and changes nothing.
pub second_acceptance_is_refused :
    (world later : World) (actor other : DispatchActor) (offer rival : ℕ) (key other_key : Text)
    (m after : Market) (driver rival_driver : ℕ) (o p : OfferRow) (r : AcceptDriverOfferResult)
    → IsFreshCall actor offer key m driver o
    → accept_driver_offer world actor offer key m ≡ committed (ok r) after
    → IsFreshCall other rival other_key after rival_driver p
    → p.attempt_id ≡ o.attempt_id
    → accept_driver_offer later other rival other_key after ≡ rolled_back conflict
second_acceptance_is_refused world later actor other offer rival key other_key m after driver
      rival_driver o p r call accepted rival_call same =
    let closed =
      accept_fresh_closes world actor driver o key m r after
        (sym (fresh_call world actor offer key m driver o call) ∙ accepted) in
    let refused : attempt_is_offering after p.attempt_id ≡ false = rw same closed in
    fresh_call later other rival other_key after rival_driver p rival_call ∙ rw refused refl
