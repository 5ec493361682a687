-- ===== src/Journey/Status.antt =====
-- packages/domain/src/journey.ts: the statuses of a Journey and their transitions.
use dazat_mobility.Base.{Bool, List, [], ◌∷◌, includes}
use dazat_mobility.Base.Results.{Result, require}

pub data JourneyStatus : Type 0 where
  assigned en_route arrived awaiting_ridecheck passenger_verified : JourneyStatus
  in_progress arriving completed : JourneyStatus

unfoldable pub JourneyStatus-discrete : Discrete JourneyStatus
JourneyStatus-discrete = hlevel

unfoldable journey_transitions : JourneyStatus → List JourneyStatus
journey_transitions assigned = en_route ∷ []
journey_transitions en_route = arrived ∷ []
journey_transitions arrived = awaiting_ridecheck ∷ []
journey_transitions awaiting_ridecheck = passenger_verified ∷ []
journey_transitions passenger_verified = in_progress ∷ []
journey_transitions in_progress = arriving ∷ []
journey_transitions arriving = completed ∷ []
journey_transitions completed = []

unfoldable can_transition_journey : JourneyStatus → JourneyStatus → Bool
unfolding journey_transitions JourneyStatus-discrete
can_transition_journey from to = includes JourneyStatus-discrete (journey_transitions from) to

pub data JourneyError : Type 0 where
  invalid_journey_transition : JourneyStatus → JourneyStatus → JourneyError

unfoldable assert_journey_transition :
    JourneyStatus → JourneyStatus → Result JourneyError (Unit {0})
unfolding can_transition_journey
assert_journey_transition from to =
    require (can_transition_journey from to) (invalid_journey_transition from to)
