-- ===== src/Dispatch/Availability.antt =====
-- packages/domain/src/dispatch.ts: the availability of a Driver, the release after a Journey, and
-- the statuses of an offer.
pub mod Traces
use dazat_mobility.Base.{Bool, true, false, ◌&&◌, ◌||◌, not, List, [], ◌∷◌, includes, same}
use dazat_mobility.Base.Results.{Result, require}

pub data DriverAvailabilityStatus : Type 0 where
  offline available offered assigned break finishing_soon : DriverAvailabilityStatus

unfoldable pub DriverAvailabilityStatus-discrete : Discrete DriverAvailabilityStatus
DriverAvailabilityStatus-discrete = hlevel

pub data DriverEligibilityStatus : Type 0 where
  eligible ineligible review_required : DriverEligibilityStatus

unfoldable pub DriverEligibilityStatus-discrete : Discrete DriverEligibilityStatus
DriverEligibilityStatus-discrete = hlevel

pub data DriverOfferStatus : Type 0 where
  offered accepted declined expired withdrawn lost_race : DriverOfferStatus

unfoldable pub DriverOfferStatus-discrete : Discrete DriverOfferStatus
DriverOfferStatus-discrete = hlevel

unfoldable pub availability_transitions : DriverAvailabilityStatus → List DriverAvailabilityStatus
availability_transitions offline = available ∷ []
availability_transitions available =
    offline ∷ DriverAvailabilityStatus.offered ∷ assigned ∷ break ∷ finishing_soon ∷ []
availability_transitions DriverAvailabilityStatus.offered =
    available ∷ offline ∷ assigned ∷ break ∷ finishing_soon ∷ []
availability_transitions assigned = []
availability_transitions break = available ∷ offline ∷ finishing_soon ∷ []
availability_transitions finishing_soon =
    available ∷ offline ∷ DriverAvailabilityStatus.offered ∷ assigned ∷ break ∷ []

unfoldable offer_transitions : DriverOfferStatus → List DriverOfferStatus
offer_transitions DriverOfferStatus.offered =
    accepted ∷ declined ∷ expired ∷ withdrawn ∷ lost_race ∷ []
offer_transitions _ = []

unfoldable pub can_transition_driver_availability :
    DriverAvailabilityStatus → DriverAvailabilityStatus → Bool
unfolding availability_transitions DriverAvailabilityStatus-discrete
can_transition_driver_availability from to =
    includes DriverAvailabilityStatus-discrete (availability_transitions from) to

pub data AvailabilityError : Type 0 where
  invalid_availability_transition :
      DriverAvailabilityStatus → DriverAvailabilityStatus → AvailabilityError

unfoldable pub assert_driver_availability_transition :
    DriverAvailabilityStatus → DriverAvailabilityStatus → Result AvailabilityError (Unit {0})
unfolding can_transition_driver_availability
assert_driver_availability_transition from to =
    require
      (same DriverAvailabilityStatus-discrete from to || can_transition_driver_availability from to)
      (invalid_availability_transition from to)

pub record Release : Type 0 where
  pub from : DriverAvailabilityStatus
  pub to : DriverAvailabilityStatus
  pub journey_completed : Bool
  pub assignment_completed : Bool

unfoldable pub can_release_driver_after_journey_completion : Release → Bool
unfolding DriverAvailabilityStatus-discrete
can_release_driver_after_journey_completion i =
    same DriverAvailabilityStatus-discrete i.from assigned
    && same DriverAvailabilityStatus-discrete i.to available
    && i.journey_completed
    && i.assignment_completed

unfoldable pub can_transition_driver_offer : DriverOfferStatus → DriverOfferStatus → Bool
unfolding offer_transitions DriverOfferStatus-discrete
can_transition_driver_offer from to =
    includes DriverOfferStatus-discrete (offer_transitions from) to
