-- ===== src/Dispatch/Availability/Traces.antt =====
-- What holds along the life of a Driver's availability (dispatch.ts), with the break
-- after an unsafe termination (driver-fair-treatment.ts).
use dazat_mobility.Base.{
  Bool, true, false, ◌&&◌, List, [], ◌∷◌, ◌≡◌, refl, ◌⊎◌, inl, inr, arith, some_of, same,
}
use dazat_mobility.Base.Results.{ok, err}
use dazat_mobility.Dispatch.Availability.{
  DriverAvailabilityStatus, assigned, break, assert_driver_availability_transition,
  can_release_driver_after_journey_completion,
}
use dazat_mobility.Driver.FairTreatment.{driver_may_enter_break_after_unsafe_termination}

-- A request to change the availability of a Driver: by the checked transition, by the release after a
-- Journey, with what is known of the Journey and the assignment, or by the break after an unsafe
-- termination, with what is known of the assignment, the termination and the passenger.
pub data Request : Type 0 where
  move : DriverAvailabilityStatus → Request
  release : DriverAvailabilityStatus → (journey assignment : Bool) → Request
  break_off : (cancelled persisted continuity : Bool) → Request

-- The availability after a request; a refused one changes nothing.
unfoldable pub change : DriverAvailabilityStatus → Request → DriverAvailabilityStatus
unfolding assert_driver_availability_transition can_release_driver_after_journey_completion
    driver_may_enter_break_after_unsafe_termination
change s (move to) = elim (assert_driver_availability_transition s to) [ ok _ ↦ to | err _ ↦ s ]
change s (release to journey assignment) =
    elim (can_release_driver_after_journey_completion (record {
      from = s;
      to = to;
      journey_completed = journey;
      assignment_completed = assignment;
    })) [ true ↦ to | false ↦ s ]
change s (break_off cancelled persisted continuity) =
    elim (driver_may_enter_break_after_unsafe_termination (record {
      from_availability = s;
      assignment_cancelled = cancelled;
      safety_termination_persisted = persisted;
      passenger_continuity_opened = continuity;
    })) [ true ↦ break | false ↦ s ]

abbrev pub changes : DriverAvailabilityStatus → List Request → DriverAvailabilityStatus
changes s [] = s
changes s (r ∷ rs) = changes (change s r) rs

-- A release with the Journey and the assignment completed, or a break with the assignment cancelled,
-- the termination persisted and the continuity of the passenger opened.
abbrev pub ends_assignment : Request → Bool
ends_assignment (release _ journey assignment) = journey && assignment
ends_assignment (break_off cancelled persisted continuity) = cancelled && (persisted && continuity)
ends_assignment (move _) = false

-- What one request makes of an ASSIGNED Driver.
change-assigned : (r : Request) → (ends_assignment r ≡ true) ⊎ (change assigned r ≡ assigned)
unfolding change
change-assigned (move to) = ground arith
change-assigned (release to journey assignment) = ground arith
change-assigned (break_off cancelled persisted continuity) = ground arith

-- Whatever is requested of an ASSIGNED Driver by checked transitions, releases after a Journey and
-- breaks after an unsafe termination, the Driver stays ASSIGNED unless one of the requests is a
-- release with the Journey and the assignment both completed, or a break with the assignment
-- cancelled, the termination persisted and the continuity of the passenger opened.
pub stays_assigned :
    (rs : List Request) → some_of ends_assignment rs ≡ false → changes assigned rs ≡ assigned
stays_assigned [] h = refl
stays_assigned (r ∷ rs) h = elim (change-assigned r) [
  | inl done ↦ cc
  | inr same ↦ ground (arith, stays_assigned rs)
]
