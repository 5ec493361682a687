-- ===== src/Dispatch/Exclusive/Start.antt =====
-- services/api/src/modules/dispatch/dispatch-service.ts: startBookingDispatch keeps the invariant of
-- Dispatch.
use dazat_mobility.Base.{
  ℕ, ◌+◌, ◌≤◌, List, [], ◌∷◌, ◌++◌, ◌≡◌, ap, refl, sym, subst, inl, inr, arith,
}
use dazat_mobility.Base.Texts.{Text, units}
use dazat_mobility.Base.Results.{ok, Result-cases}
use dazat_mobility.Booking.Status.{BookingStatus, searching_for_driver}
use dazat_mobility.Booking.Transition.{is_booker}
use dazat_mobility.Dispatch.Market.{
  DispatchAttemptStatus, offering, StartDispatchResult, forbidden, Market, next_id, made, settled,
}
use dazat_mobility.Dispatch.Lookup.{DispatchActor}
use dazat_mobility.Dispatch.Steps.{
  BookingDispatchContext, World, append_booking_transition, read_booking_context,
}
use dazat_mobility.Dispatch.Start.{
  attempt_row, close_attempt, finish_start, finish_with_offers, finish_without_driver,
  insert_attempt, searching_context, start_booking_dispatch, start_fresh,
}
use dazat_mobility.Dispatch.Candidates.{
  Candidate, Geography, eligible_candidates, first_n, offer_wave, raw_candidates, started_before,
}
use dazat_mobility.Dispatch.Rules.{After-ensure, After-or_stored, After-ended_with}
use dazat_mobility.Dispatch.Exclusive.{IsExclusive}
use dazat_mobility.Dispatch.Exclusive.Opening.{opened-IsExclusive}
use dazat_mobility.Dispatch.Exclusive.Answers.{append-Untouched}

append-nil {ℓ} : {A : Type ℓ} (xs : List A) → xs ++ [] ≡ xs
append-nil [] = refl
append-nil (x ∷ xs) = ap (λ l. x ∷ l) (append-nil xs)

-- The tables after the transition to SEARCHING_FOR_DRIVER and the new attempt.
pub record Tried (context : BookingDispatchContext) (command : ℕ) (m tried : Market) : Type 0 where
  pub numbers : next_id m ≤ command
  pub later : command + 4 ≤ next_id tried
  pub attempts : tried.attempts ≡ m.attempts ++ attempt_row (command + 2) context ∷ []
  pub offers : tried.offers ≡ m.offers
  pub assignments : tried.assignments ≡ m.assignments

insert_attempt-Tried :
    (actor : DispatchActor) (context : BookingDispatchContext) (m moved tried : Market)
    → append_booking_transition context searching_for_driver actor.account_id
        (units "DISPATCH_STARTED")
        (next_id m + 1)
        (next_id m)
        (made 4 m)
      ≡ ok moved
    → insert_attempt (next_id m + 2) context moved ≡ ok tried
    → Tried context (next_id m) m tried
unfolding insert_attempt
insert_attempt-Tried actor context m moved tried h k =
    let quiet =
      append-Untouched context searching_for_driver actor.account_id (units "DISPATCH_STARTED")
        (next_id m + 1) (next_id m) (made 4 m) moved h in
    let later = quiet.later in
    let attempts = quiet.attempts in
    let offers = quiet.offers in
    let assignments = quiet.assignments in
    record {
      numbers = omega arith;
      later = ground arith;
      attempts = ground arith;
      offers = ground arith;
      assignments = ground arith;
    }

finish_with_offers-IsExclusive :
    (world : World) (actor : DispatchActor) (context : BookingDispatchContext) (command : ℕ)
    (key : Text) (eligible : List Candidate) (m tried : Market)
    → Tried context command m tried
    → IsExclusive m
    → IsExclusive (finish_with_offers world actor context command key eligible tried).1
unfolding finish_with_offers
finish_with_offers-IsExclusive world actor context command key eligible m tried t inv =
    let rows = first_n world.config.offer_wave_size eligible in
    opened-IsExclusive world context rows (next_id tried) (attempt_row (command + 2) context)
      offering m (finish_with_offers world actor context command key eligible tried).1
      (record {
        fresh = omega (arith, t.numbers);
        row_first = omega (arith, t.later);
        wave_last = omega arith;
        attempts = rw t.attempts refl;
        offers = rw t.offers refl;
        assignments = t.assignments;
      })
      inv

finish_without_driver-IsExclusive :
    (world : World) (actor : DispatchActor) (context : BookingDispatchContext) (command : ℕ)
    (key : Text) (m tried : Market) (response : StartDispatchResult) (after : Market)
    → Tried context command m tried
    → IsExclusive m
    → finish_without_driver actor context command key tried ≡ ok (response, after)
    → IsExclusive after
unfolding finish_without_driver offer_wave
finish_without_driver-IsExclusive world actor context command key m tried response after t inv h =
    let closed = close_attempt (command + 2) DispatchAttemptStatus.no_eligible_driver tried in
    elim (Result-cases (
      append_booking_transition (searching_context context) BookingStatus.no_eligible_driver
        actor.account_id (units "HARD_FILTER_EXHAUSTED") (command + 1) (command + 3) closed)) [
          | inr (e, failed) ↦ absurd (ground arith)
          | inl (moved, done) ↦
              let quiet =
                append-Untouched (searching_context context) BookingStatus.no_eligible_driver
                  actor.account_id (units "HARD_FILTER_EXHAUSTED") (command + 1) (command + 3)
                  closed moved done in
              let numbers : next_id after ≡ next_id moved = ground arith in
              let attempts : after.attempts ≡ moved.attempts = ground arith in
              let offers : after.offers ≡ moved.offers = ground arith in
              let assignments : after.assignments ≡ moved.assignments = ground arith in
              opened-IsExclusive world context [] (next_id tried)
                (attempt_row (command + 2) context) DispatchAttemptStatus.no_eligible_driver m after
                (record {
                  fresh = omega (arith, t.numbers);
                  row_first = omega (arith, t.later);
                  wave_last = (let later = quiet.later in omega (arith, later, numbers));
                  attempts = rw (attempts, quiet.attempts, t.attempts) refl;
                  offers = rw (offers, quiet.offers, t.offers) (sym (append-nil m.offers));
                  assignments = rw (assignments, quiet.assignments) t.assignments;
                })
                inv
        ]

finish_start-IsExclusive :
    (world : World) (actor : DispatchActor) (context : BookingDispatchContext) (command : ℕ)
    (key : Text) (eligible : List Candidate) (m tried : Market) (response : StartDispatchResult)
    (after : Market)
    → Tried context command m tried
    → IsExclusive m
    → finish_start world actor context command key eligible tried ≡ ok (response, after)
    → IsExclusive after
finish_start-IsExclusive world actor context command key [] m tried response after t inv h =
    finish_without_driver-IsExclusive world actor context command key m tried response after t inv h
finish_start-IsExclusive world actor context command key (c ∷ eligible) m tried response after t inv
      h =
    let same : (finish_with_offers world actor context command key (c ∷ eligible) tried).1 ≡ after =
      ground arith in
    subst IsExclusive same
      (finish_with_offers-IsExclusive world actor context command key (c ∷ eligible) m tried t inv)

start_fresh-IsExclusive :
    (world : World) (geography : Geography) (actor : DispatchActor) (booking : ℕ) (key : Text)
    (m : Market) (response : StartDispatchResult) (after : Market)
    → start_fresh world geography actor booking key m ≡ ok (response, after)
    → IsExclusive m
    → IsExclusive after
unfolding start_fresh
start_fresh-IsExclusive world geography actor booking key m response after h inv =
    elim (Result-cases (read_booking_context world m.store booking)) [
      | inr (e, failed) ↦ absurd (ground arith)
      | inl (context, read) ↦
          elim (Result-cases (
            append_booking_transition context searching_for_driver actor.account_id
              (units "DISPATCH_STARTED") (next_id m + 1) (next_id m) (made 4 m))) [
                | inr (e, failed) ↦ absurd (ground arith)
                | inl (moved, done) ↦
                    elim (Result-cases (insert_attempt (next_id m + 2) context moved)) [
                      | inr (e, failed) ↦ absurd (ground arith)
                      | inl (tried, inserted) ↦
                          elim (Result-cases (
                            eligible_candidates world context tried
                              (raw_candidates world geography context tried))) [
                                | inr (e, failed) ↦ absurd (ground arith)
                                | inl (eligible, filtered) ↦
                                    finish_start-IsExclusive world actor context (next_id m) key
                                      eligible m tried response after
                                      (insert_attempt-Tried actor context m moved tried done
                                        inserted)
                                      inv (ground arith)
                              ]
                    ]
              ]
    ]

pub start_booking_dispatch-IsExclusive :
    (world : World) (geography : Geography) (actor : DispatchActor) (booking : ℕ) (key : Text)
    (m : Market)
    → IsExclusive m
    → IsExclusive (settled m (start_booking_dispatch world geography actor booking key m)).1
unfolding start_booking_dispatch
start_booking_dispatch-IsExclusive world geography actor booking key m inv =
    After-ensure IsExclusive m inv (is_booker m.store booking actor.person_id) forbidden _ (λ own.
      After-or_stored IsExclusive m inv (started_before m.commands actor.account_id key) _ (
        After-ended_with IsExclusive m inv (start_fresh world geography actor booking key m)
          (λ response after h.
            start_fresh-IsExclusive world geography actor booking key m response after h inv)))
