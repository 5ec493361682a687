-- ===== src/Dispatch/Exclusive.antt =====
-- services/api/src/modules/dispatch/dispatch-service.ts: the invariant on the offers, the attempts
-- and the assignments of Dispatch, and what keeps it.
pub mod Answers
pub mod Offers
pub mod Assignment
pub mod Acceptance
pub mod Opening
pub mod Start
use dazat_mobility.Base.{
  ℕ, ◌+◌, ◌≤◌, Bool, true, false, ◌&&◌, Option, none, some, List, [], ◌∷◌, ◌==◌, ◌≡◌, refl, ltb,
  if◌then◌else◌, every, every-imp, arith,
}
use dazat_mobility.Dispatch.Availability.{DriverOfferStatus, accepted}
use dazat_mobility.Dispatch.Market.{OfferRow, AssignmentRow, Market, next_id, count}
use dazat_mobility.Dispatch.Assigning.{attempt_is_offering}

abbrev pub is_accepted : DriverOfferStatus → Bool
is_accepted accepted = true
is_accepted _ = false

abbrev pub accepted_in : ℕ → OfferRow → Bool
accepted_in attempt o = o.attempt_id == attempt && is_accepted o.status

-- The accepted offers and the assignments of an attempt, and 1 where it takes acceptances.
abbrev pub accepted_of : Market → ℕ → ℕ
accepted_of m attempt = count (accepted_in attempt) m.offers

abbrev pub assigned_in : ℕ → AssignmentRow → Bool
assigned_in attempt a = a.attempt_id == attempt

abbrev pub assignments_of : Market → ℕ → ℕ
assignments_of m attempt = count (assigned_in attempt) m.assignments

abbrev pub open_of : Market → ℕ → ℕ
open_of m attempt = if attempt_is_offering m attempt then 1 else 0

abbrev pub has_id : ℕ → OfferRow → Bool
has_id i o = o.id == i

abbrev pub made_before : ℕ → OfferRow → Bool
made_before n o = ltb o.id n && ltb o.attempt_id n

pub record IsExclusive (m : Market) : Type 0 where
  pub one_winner : (attempt : ℕ) → accepted_of m attempt + open_of m attempt ≤ 1
  pub winners_assigned : (attempt : ℕ) → accepted_of m attempt ≡ assignments_of m attempt
  pub one_row : (i : ℕ) → count (has_id i) m.offers ≤ 1
  pub numbered : every (made_before (next_id m)) m.offers ≡ true

-- A change that the invariant does not see.
pub record Kept (m after : Market) : Type 0 where
  pub later : next_id m ≤ next_id after
  pub same_accepted : (attempt : ℕ) → accepted_of after attempt ≡ accepted_of m attempt
  pub same_assignments : (attempt : ℕ) → assignments_of after attempt ≡ assignments_of m attempt
  pub same_open : (attempt : ℕ) → attempt_is_offering after attempt ≡ attempt_is_offering m attempt
  pub same_rows : (i : ℕ) → count (has_id i) after.offers ≡ count (has_id i) m.offers
  pub same_numbers : (n : ℕ) → every (made_before n) after.offers ≡ every (made_before n) m.offers

pub numbered-later :
    (n k : ℕ) (xs : List OfferRow)
    → n ≤ k
    → every (made_before n) xs ≡ true
    → every (made_before k) xs ≡ true
numbered-later n k xs le h = every-imp (made_before n) (made_before k) xs (λ o b. ground arith) h

pub Kept-IsExclusive : (m after : Market) → Kept m after → IsExclusive m → IsExclusive after
Kept-IsExclusive m after k inv = record {
  one_winner = λ a. rw (k.same_accepted a, k.same_open a) (inv.one_winner a);
  winners_assigned = λ a. rw (k.same_accepted a, k.same_assignments a) (inv.winners_assigned a);
  one_row = λ i. rw (k.same_rows i) (inv.one_row i);
  numbered =
      rw (k.same_numbers (next_id after))
        (numbered-later (next_id m) (next_id after) m.offers k.later inv.numbered);
}

pub Kept-then : (m between after : Market) → Kept m between → Kept between after → Kept m after
Kept-then m between after h k = record {
  later = omega (arith, h.later, k.later);
  same_accepted = λ a. rw (k.same_accepted a) (h.same_accepted a);
  same_assignments = λ a. rw (k.same_assignments a) (h.same_assignments a);
  same_open = λ a. rw (k.same_open a) (h.same_open a);
  same_rows = λ i. rw (k.same_rows i) (h.same_rows i);
  same_numbers = λ n. rw (k.same_numbers n) (h.same_numbers n);
}

-- The three tables and the counter stay.
pub record Untouched (m after : Market) : Type 0 where
  pub later : next_id m ≤ next_id after
  pub offers : after.offers ≡ m.offers
  pub assignments : after.assignments ≡ m.assignments
  pub attempts : after.attempts ≡ m.attempts

pub Untouched-Kept : (m after : Market) → Untouched m after → Kept m after
Untouched-Kept m after u = record {
  later = u.later;
  same_accepted = λ a. rw u.offers refl;
  same_assignments = λ a. rw u.assignments refl;
  same_open = λ a. rw u.attempts refl;
  same_rows = λ i. rw u.offers refl;
  same_numbers = λ n. rw u.offers refl;
}

pub Untouched-then :
    (m between after : Market) → Untouched m between → Untouched between after → Untouched m after
Untouched-then m between after h k = record {
  later = omega (arith, h.later, k.later);
  offers = rw (k.offers, h.offers) refl;
  assignments = rw (k.assignments, h.assignments) refl;
  attempts = rw (k.attempts, h.attempts) refl;
}
