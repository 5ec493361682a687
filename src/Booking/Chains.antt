-- ===== src/Booking/Chains.antt =====
-- Chains of canonical Booking transitions (booking-status.ts): what every chain passes, and how
-- long it can be.
use dazat_mobility.Base.{
  ℕ, ◌≤◌, ◌<◌, Bool, true, false, ◌&&◌, List, [], ◌∷◌, includes, same, ◌≡◌, refl, sym, ap, ◌⊎◌, inl,
  inr, arith, same-eq, same_refl, includes-one, includes-two,
}
use dazat_mobility.Booking.Status.{
  BookingStatus, BookingStatus-discrete, draft, quote_created, awaiting_confirmation, confirmed,
  scheduled, no_eligible_driver, payment_failed, ready_for_dispatch, searching_for_driver,
  driver_assigned, driver_en_route, driver_arrived, awaiting_ridecheck, passenger_verified,
  in_progress, arriving, completed, payment_processing, paid, closed,
  can_use_canonical_forward_transition,
}

-- `path` follows allowed transitions from `s`.
unfoldable pub chain_ok : BookingStatus → List BookingStatus → Bool
chain_ok s [] = true
chain_ok s (t ∷ ts) = can_use_canonical_forward_transition s t && chain_ok t ts

-- The place of a status on the forward spine; the exception statuses come last.
abbrev pub rank : BookingStatus → ℕ
rank draft = 0
rank quote_created = 1
rank awaiting_confirmation = 2
rank confirmed = 3
rank scheduled = 4
rank ready_for_dispatch = 5
rank searching_for_driver = 6
rank driver_assigned = 7
rank driver_en_route = 8
rank driver_arrived = 9
rank awaiting_ridecheck = 10
rank passenger_verified = 11
rank in_progress = 12
rank arriving = 13
rank completed = 14
rank payment_processing = 15
rank paid = 16
rank closed = 17
rank _ = 18

-- An allowed transition leads to a later status, and an exception status has none.
pub rank-lt :
    (a b : BookingStatus) → can_use_canonical_forward_transition a b ≡ true → rank a < rank b
unfolding can_use_canonical_forward_transition
rank-lt draft b h = ground arith
rank-lt _ b h = ground arith

pub rank-le-18 : (a : BookingStatus) → rank a ≤ 18
rank-le-18 draft = omega arith
rank-le-18 _ = omega arith

abbrev OnlyFrom : BookingStatus → BookingStatus → Type 0
OnlyFrom p q = (a : BookingStatus) → can_use_canonical_forward_transition a q ≡ true → a ≡ p

abbrev passes : List BookingStatus → BookingStatus → Bool
passes = includes BookingStatus-discrete

-- Where only `p` leads to `q`, a chain that passes `q` passes `p` before.
passes_before :
    (p q s : BookingStatus) (path : List BookingStatus)
    → OnlyFrom p q
    → chain_ok s path ≡ true
    → passes path q ≡ true
    → passes (s ∷ path) p ≡ true
unfolding chain_ok
passes_before p q s [] only c h = cc
passes_before p q s (t ∷ ts) only c h = ground (
  arith,
  same-eq BookingStatus-discrete t q,
  only s,
  same_refl BookingStatus-discrete p,
  passes_before p q t ts only,
)

-- The one status from which a status is entered; READY_FOR_DISPATCH has two.
abbrev sole_source : BookingStatus → BookingStatus
sole_source quote_created = draft
sole_source awaiting_confirmation = quote_created
sole_source confirmed = awaiting_confirmation
sole_source scheduled = confirmed
sole_source searching_for_driver = ready_for_dispatch
sole_source no_eligible_driver = searching_for_driver
sole_source driver_assigned = searching_for_driver
sole_source driver_en_route = driver_assigned
sole_source driver_arrived = driver_en_route
sole_source awaiting_ridecheck = driver_arrived
sole_source passenger_verified = awaiting_ridecheck
sole_source in_progress = passenger_verified
sole_source arriving = in_progress
sole_source completed = arriving
sole_source payment_processing = completed
sole_source paid = payment_processing
sole_source payment_failed = payment_processing
sole_source _ = paid

only_source :
    (a q : BookingStatus)
    → can_use_canonical_forward_transition a q ≡ true
    → (q ≡ ready_for_dispatch) ⊎ (a ≡ sole_source q)
unfolding can_use_canonical_forward_transition
only_source confirmed q h =
    elim (includes-two BookingStatus-discrete scheduled ready_for_dispatch q h) [
      | inl p ↦ inr (ap sole_source p)
      | inr p ↦ inl (sym p)
    ]
only_source scheduled q h = inl (sym (includes-one BookingStatus-discrete ready_for_dispatch q h))
only_source searching_for_driver q h =
    elim (includes-two BookingStatus-discrete driver_assigned no_eligible_driver q h) [
      | inl p ↦ inr (ap sole_source p)
      | inr p ↦ inr (ap sole_source p)
    ]
only_source payment_processing q h =
    elim (includes-two BookingStatus-discrete paid payment_failed q h) [
      | inl p ↦ inr (ap sole_source p)
      | inr p ↦ inr (ap sole_source p)
    ]
only_source closed q h = cc
only_source draft q h = inr (ap sole_source (includes-one BookingStatus-discrete quote_created q h))
only_source quote_created q h =
    inr (ap sole_source (includes-one BookingStatus-discrete awaiting_confirmation q h))
only_source awaiting_confirmation q h =
    inr (ap sole_source (includes-one BookingStatus-discrete confirmed q h))
only_source ready_for_dispatch q h =
    inr (ap sole_source (includes-one BookingStatus-discrete searching_for_driver q h))
only_source driver_assigned q h =
    inr (ap sole_source (includes-one BookingStatus-discrete driver_en_route q h))
only_source driver_en_route q h =
    inr (ap sole_source (includes-one BookingStatus-discrete driver_arrived q h))
only_source driver_arrived q h =
    inr (ap sole_source (includes-one BookingStatus-discrete awaiting_ridecheck q h))
only_source awaiting_ridecheck q h =
    inr (ap sole_source (includes-one BookingStatus-discrete passenger_verified q h))
only_source passenger_verified q h =
    inr (ap sole_source (includes-one BookingStatus-discrete in_progress q h))
only_source in_progress q h =
    inr (ap sole_source (includes-one BookingStatus-discrete arriving q h))
only_source arriving q h = inr (ap sole_source (includes-one BookingStatus-discrete completed q h))
only_source completed q h =
    inr (ap sole_source (includes-one BookingStatus-discrete payment_processing q h))
only_source paid q h = inr (ap sole_source (includes-one BookingStatus-discrete closed q h))
only_source _ q h = cc

only_from :
    (q : BookingStatus)
    → same BookingStatus-discrete q ready_for_dispatch ≡ false
    → OnlyFrom (sole_source q) q
only_from q other a h =
    ground (arith, only_source a q h, same_refl BookingStatus-discrete ready_for_dispatch)

module _ (path : List BookingStatus) (c : chain_ok draft path ≡ true) where
  step_back :
      (q : BookingStatus)
      → same BookingStatus-discrete q ready_for_dispatch ≡ false
      → same BookingStatus-discrete draft (sole_source q) ≡ false
      → passes path q ≡ true
      → passes path (sole_source q) ≡ true
  step_back q unique other h =
      ground (arith, passes_before (sole_source q) q draft path (only_from q unique) c h)

  -- A chain of canonical transitions from DRAFT that reaches IN_PROGRESS has passed the RideCheck,
  -- the arrival of the Driver and the assignment of a Driver.
  pub in_progress_needs_ridecheck :
      passes path in_progress ≡ true
      → (passes path passenger_verified ≡ true)
        × (passes path awaiting_ridecheck ≡ true)
        × (passes path driver_arrived ≡ true)
        × (passes path driver_assigned ≡ true)
        × (passes path searching_for_driver ≡ true)
  unfolding BookingStatus-discrete
  in_progress_needs_ridecheck h =
      let verified = step_back in_progress refl refl h in
      let awaiting = step_back passenger_verified refl refl verified in
      let arrived = step_back awaiting_ridecheck refl refl awaiting in
      let en_route = step_back driver_arrived refl refl arrived in
      let assigned = step_back driver_en_route refl refl en_route in
      (verified, awaiting, arrived, assigned, step_back driver_assigned refl refl assigned)

  -- A chain of canonical transitions from DRAFT that reaches PAID has passed COMPLETED, IN_PROGRESS
  -- and PASSENGER_VERIFIED.
  pub paid_needs_completion :
      passes path paid ≡ true
      → (passes path payment_processing ≡ true)
        × (passes path completed ≡ true)
        × (passes path in_progress ≡ true)
        × (passes path passenger_verified ≡ true)
  unfolding BookingStatus-discrete
  paid_needs_completion h =
      let processing = step_back paid refl refl h in
      let done = step_back payment_processing refl refl processing in
      let arriving_ = step_back completed refl refl done in
      let started = step_back arriving refl refl arriving_ in
      (processing, done, started, step_back in_progress refl refl started)
