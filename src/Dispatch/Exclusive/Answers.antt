-- ===== src/Dispatch/Exclusive/Answers.antt =====
-- services/api/src/modules/dispatch/dispatch-service.ts: answers to offers, shifts and transitions
-- of bookings against the invariant of Dispatch.
use dazat_mobility.Base.{ℕ, Bool, true, false, Option, some, ◌==◌, ◌≡◌, refl, arith}
use dazat_mobility.Base.Texts.{Text}
use dazat_mobility.Base.Results.{ok}
use dazat_mobility.Booking.Status.{BookingStatus}
use dazat_mobility.Dispatch.Availability.{DriverAvailabilityStatus, offline, DriverOfferStatus}
use dazat_mobility.Dispatch.Market.{OfferRow, ResponseReason, OfferOutcome, Market}
use dazat_mobility.Dispatch.Steps.{
  BookingDispatchContext, answer_and_attribute, answer_offers, append_booking_transition,
  find_offer, is_offered, store_booking_transition,
}
use dazat_mobility.Dispatch.Shifts.{end_shift, record_driver_shift_availability_event, start_shift}
use dazat_mobility.Dispatch.Counting.{count-update_where, count-update_one, every-update_where}
use dazat_mobility.Dispatch.Exclusive.{
  is_accepted, accepted_in, has_id, made_before, IsExclusive, Kept, Untouched,
}

-- An offer that was given an answer.
abbrev pub answered : DriverOfferStatus → Option ResponseReason → OfferRow → OfferRow
answered status reason o = record o { status = status; reason = reason }

-- Answers other than acceptances to offers that are not accepted.
answers-Kept :
    (p : OfferRow → Bool) (status : DriverOfferStatus) (reason : Option ResponseReason) (m : Market)
    → is_accepted status ≡ false
    → ((o : OfferRow) → p o ≡ true → is_offered o.status ≡ true)
    → Kept m (answer_offers p status reason m)
answers-Kept p status reason m losing only = record {
  later = omega arith;
  same_accepted = λ a.
      count-update_where (accepted_in a) p (answered status reason) m.offers
        (λ o h. let unanswered = only o h in ground arith);
  same_assignments = λ a. refl;
  same_open = λ a. refl;
  same_rows = λ i. count-update_where (has_id i) p (answered status reason) m.offers (λ o h. refl);
  same_numbers =
      λ n. every-update_where (made_before n) p (answered status reason) m.offers (λ o. refl);
}

-- An answer other than an acceptance to one offer by its identifier.
pub answer-Kept :
    (status : DriverOfferStatus) (reason : Option ResponseReason) (m : Market) (i : ℕ)
    (o : OfferRow)
    → IsExclusive m
    → is_accepted status ≡ false
    → find_offer m i ≡ some o
    → is_offered o.status ≡ true
    → Kept m (answer_offers (λ r. r.id == i) status reason m)
answer-Kept status reason m i o inv losing found unanswered = record {
  later = omega arith;
  same_accepted = λ a.
      let one =
        count-update_one (accepted_in a) (λ r. r.id == i) (answered status reason) m.offers o
          (inv.one_row i) found in
      ground arith;
  same_assignments = λ a. refl;
  same_open = λ a. refl;
  same_rows = λ k.
      count-update_where (has_id k) (λ r. r.id == i) (answered status reason) m.offers
        (λ o h. refl);
  same_numbers = λ n.
      every-update_where (made_before n) (λ r. r.id == i) (answered status reason) m.offers
        (λ o. refl);
}

pub answer_and_attribute-Kept :
    (p : OfferRow → Bool) (status : DriverOfferStatus) (outcome : OfferOutcome)
    (reason : ResponseReason) (m : Market)
    → is_accepted status ≡ false
    → ((o : OfferRow) → p o ≡ true → is_offered o.status ≡ true)
    → Kept m (answer_and_attribute p status outcome reason m)
unfolding answer_and_attribute
answer_and_attribute-Kept p status outcome reason m losing only =
    let k = answers-Kept p status (some reason) m losing only in
    record {
      later = k.later;
      same_accepted = k.same_accepted;
      same_assignments = k.same_assignments;
      same_open = k.same_open;
      same_rows = k.same_rows;
      same_numbers = k.same_numbers;
    }

end_shift-Untouched :
    (to : DriverAvailabilityStatus) (shift : ℕ) (m : Market) → Untouched m (end_shift to shift m)
end_shift-Untouched offline shift m = record {
  later = omega arith;
  offers = refl;
  assignments = refl;
  attempts = refl;
}
end_shift-Untouched _ shift m = record {
  later = omega arith;
  offers = refl;
  assignments = refl;
  attempts = refl;
}

pub append-Untouched :
    (context : BookingDispatchContext) (to : BookingStatus) (actor : ℕ) (reason : Text)
    (correlation command : ℕ) (m after : Market)
    → append_booking_transition context to actor reason correlation command m ≡ ok after
    → Untouched m after
unfolding append_booking_transition store_booking_transition
append-Untouched context to actor reason correlation command m after h = record {
  later = ground arith;
  offers = ground arith;
  assignments = ground arith;
  attempts = ground arith;
}

start_shift-Untouched :
    (driver : ℕ) (from to : DriverAvailabilityStatus) (version : ℕ) (region : Option Text)
    (vehicle : Option ℕ) (command : ℕ) (m after : Market)
    → start_shift driver from to version region vehicle command m ≡ ok after
    → Untouched m after
start_shift-Untouched driver from to version region vehicle command m after h = record {
  later = ground arith;
  offers = ground arith;
  assignments = ground arith;
  attempts = ground arith;
}

pub shift-Untouched :
    (driver : ℕ) (from to : DriverAvailabilityStatus) (version : ℕ) (region : Option Text)
    (vehicle : Option ℕ) (command : ℕ) (m after : Market)
    → record_driver_shift_availability_event driver from to version region vehicle command m
      ≡ ok after
    → Untouched m after
unfolding record_driver_shift_availability_event
shift-Untouched driver from to version region vehicle command m after h = record {
  later = ground arith;
  offers = ground arith;
  assignments = ground arith;
  attempts = ground arith;
}
