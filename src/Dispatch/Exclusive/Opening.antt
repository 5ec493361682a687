-- ===== src/Dispatch/Exclusive/Opening.antt =====
-- services/api/src/modules/dispatch/dispatch-service.ts: the tables with a new attempt and the offers
-- of its wave, against the invariant of Dispatch.
use dazat_mobility.Base.{
  ℕ, suc, ◌+◌, ◌≤◌, ◌<◌, true, false, List, [], ◌∷◌, ◌++◌, ◌==◌, ◌≡◌, refl, inl, inr, every, length,
  every-append, arith, Bool-cases,
}
use dazat_mobility.Booking.Store.{update_where}
use dazat_mobility.Dispatch.Market.{
  AttemptRow, DispatchAttemptStatus, OfferRow, Market, next_id, count,
}
use dazat_mobility.Dispatch.Steps.{BookingDispatchContext, World}
use dazat_mobility.Dispatch.Assigning.{attempt_is_offering, offering_in}
use dazat_mobility.Dispatch.Candidates.{Candidate, offer_wave}
use dazat_mobility.Dispatch.Counting.{count-append}
use dazat_mobility.Dispatch.Exclusive.{
  accepted_in, accepted_of, open_of, has_id, made_before, numbered-later, IsExclusive,
}

-- An identifier that was not made yet: no offer has it, and no offer is of an attempt that has it.
no_offer_with :
    (n i : ℕ) (offers : List OfferRow)
    → every (made_before n) offers ≡ true
    → n ≤ i
    → count (has_id i) offers ≡ 0
no_offer_with n i [] h le = refl
no_offer_with n i (o ∷ offers) h le = ground (arith, no_offer_with n i offers)

no_offer_of :
    (n a : ℕ) (offers : List OfferRow)
    → every (made_before n) offers ≡ true
    → n ≤ a
    → count (accepted_in a) offers ≡ 0
no_offer_of n a [] h le = refl
no_offer_of n a (o ∷ offers) h le = ground (arith, no_offer_of n a offers)

-- The offers of a wave: none is accepted, and their identifiers are the next ones.
wave_not_accepted :
    (world : World) (context : BookingDispatchContext) (attempt first a : ℕ) (rows : List Candidate)
    → count (accepted_in a) (offer_wave world context attempt first rows) ≡ 0
unfolding offer_wave
wave_not_accepted world context attempt first a [] = refl
wave_not_accepted world context attempt first a (c ∷ rows) =
    ground (arith, wave_not_accepted world context attempt (suc first) a rows)

wave_before :
    (world : World) (context : BookingDispatchContext) (attempt first i : ℕ) (rows : List Candidate)
    → i < first
    → count (has_id i) (offer_wave world context attempt first rows) ≡ 0
unfolding offer_wave
wave_before world context attempt first i [] lt = refl
wave_before world context attempt first i (c ∷ rows) lt =
    ground (arith, wave_before world context attempt (suc first) i rows)

wave_ids :
    (world : World) (context : BookingDispatchContext) (attempt first i : ℕ) (rows : List Candidate)
    → count (has_id i) (offer_wave world context attempt first rows) ≤ 1
unfolding offer_wave
wave_ids world context attempt first i [] = omega arith
wave_ids world context attempt first i (c ∷ rows) = ground (
  arith,
  wave_ids world context attempt (suc first) i rows,
  wave_before world context attempt (suc first) i rows,
)

wave_numbered :
    (world : World) (context : BookingDispatchContext) (attempt first n : ℕ) (rows : List Candidate)
    → attempt < first
    → first + length (offer_wave world context attempt first rows) ≤ n
    → every (made_before n) (offer_wave world context attempt first rows) ≡ true
unfolding offer_wave
wave_numbered world context attempt first n [] lt le = refl
wave_numbered world context attempt first n (c ∷ rows) lt le =
    ground (arith, wave_numbered world context attempt (suc first) n rows)

-- The attempts after an insertion and a status for the new row.
opened :
    (attempts : List AttemptRow) (row : AttemptRow) (status : DispatchAttemptStatus) (a : ℕ)
    → (row.id == a) ≡ false
    → offering_in
        (update_where
          (λ r. r.id == row.id)
          (λ r. record r { status = status })
          (attempts ++ row ∷ []))
        a
      ≡ offering_in attempts a
opened [] row status a other = ground arith
opened (r ∷ attempts) row status a other = ground (arith, opened attempts row status a)

-- The tables with a new attempt, its status and the offers of its wave.
pub record Opened (world : World) (context : BookingDispatchContext) (rows : List Candidate)
    (first : ℕ) (row : AttemptRow) (status : DispatchAttemptStatus) (m after : Market)
    : Type 0 where
  pub fresh : next_id m ≤ row.id
  pub row_first : row.id < first
  pub wave_last : first + length (offer_wave world context row.id first rows) ≤ next_id after
  pub attempts :
      after.attempts
      ≡ update_where
          (λ r. r.id == row.id)
          (λ r. record r { status = status })
          (m.attempts ++ row ∷ [])
  pub offers : after.offers ≡ m.offers ++ offer_wave world context row.id first rows
  pub assignments : after.assignments ≡ m.assignments

module _ (world : World) (context : BookingDispatchContext) (rows : List Candidate) (first : ℕ)
    (row : AttemptRow) (status : DispatchAttemptStatus) (m after : Market)
    (o : Opened world context rows first row status m after) (inv : IsExclusive m) where
  opened-accepted : (a : ℕ) → accepted_of after a ≡ accepted_of m a
  opened-accepted a = rw o.offers (
      omega (
        arith,
        count-append (accepted_in a) m.offers (offer_wave world context row.id first rows),
        wave_not_accepted world context row.id first a rows,
      ))

  opened-open :
      (a : ℕ) → (row.id == a) ≡ false → attempt_is_offering after a ≡ attempt_is_offering m a
  opened-open a other = rw o.attempts (opened m.attempts row status a other)

  opened-one_winner : (a : ℕ) → accepted_of after a + open_of after a ≤ 1
  opened-one_winner a = elim (Bool-cases (row.id == a)) [
    | inl same_row ↦
        let late : next_id m ≤ a = let f = o.fresh in ground arith in
        let none_accepted = no_offer_of (next_id m) a m.offers inv.numbered late in
        let same = opened-accepted a in ground arith
    | inr other ↦
        let before = inv.one_winner a in rw (opened-accepted a, opened-open a other) before
  ]

  opened-one_row : (i : ℕ) → count (has_id i) after.offers ≤ 1
  opened-one_row i = rw o.offers (
      let wave = offer_wave world context row.id first rows in
      let f = o.fresh in
      let g = o.row_first in
      let split = count-append (has_id i) m.offers wave in
      let old = inv.one_row i in
      let ids = wave_ids world context row.id first i rows in
      let early = wave_before world context row.id first i rows in
      let late = no_offer_with (next_id m) i m.offers inv.numbered in ground arith)

  pub opened-IsExclusive : IsExclusive after
  opened-IsExclusive = record {
    one_winner = opened-one_winner;
    winners_assigned = λ a. rw (opened-accepted a, o.assignments) (inv.winners_assigned a);
    one_row = opened-one_row;
    numbered = rw o.offers (
        every-append (made_before (next_id after)) m.offers
          (offer_wave world context row.id first rows)
          (numbered-later (next_id m) (next_id after) m.offers
            (omega (arith, o.fresh, o.row_first, o.wave_last)) inv.numbered)
          (wave_numbered world context row.id first (next_id after) rows o.row_first o.wave_last));
  }
