-- ===== src/Booking/Status.antt =====
-- packages/domain/src/booking-status.ts: the statuses and the canonical forward transitions.
use dazat_mobility.Base.{Bool, true, false, List, [], ◌∷◌, includes}
use dazat_mobility.Base.Results.{Result, require}

-- AUTHORITATIVE_BOOKING_STATUSES, then EXCEPTION_BOOKING_STATUSES.
pub data BookingStatus : Type 0 where
  draft quote_created awaiting_confirmation confirmed scheduled ready_for_dispatch : BookingStatus
  searching_for_driver driver_assigned driver_en_route driver_arrived : BookingStatus
  awaiting_ridecheck passenger_verified in_progress arriving completed : BookingStatus
  payment_processing paid closed : BookingStatus
  no_eligible_driver rider_cancelled driver_cancelled operations_cancelled : BookingStatus
  rider_no_show driver_no_show payment_failed safety_hold active_incident breakdown : BookingStatus
  reassignment_required replacement_searching replacement_assigned : BookingStatus
  refund_pending refunded : BookingStatus

unfoldable pub BookingStatus-discrete : Discrete BookingStatus
BookingStatus-discrete = hlevel

abbrev exception_booking_statuses : List BookingStatus
exception_booking_statuses =
    no_eligible_driver ∷ rider_cancelled ∷ driver_cancelled ∷ operations_cancelled ∷ rider_no_show
    ∷ driver_no_show ∷ payment_failed ∷ safety_hold ∷ active_incident ∷ breakdown
    ∷ reassignment_required ∷ replacement_searching ∷ replacement_assigned ∷ refund_pending
    ∷ refunded ∷ []

-- The record is over the authoritative statuses only; the last clause is never read.
unfoldable forward_transitions : BookingStatus → List BookingStatus
forward_transitions draft = quote_created ∷ []
forward_transitions quote_created = awaiting_confirmation ∷ []
forward_transitions awaiting_confirmation = confirmed ∷ []
forward_transitions confirmed = scheduled ∷ ready_for_dispatch ∷ []
forward_transitions scheduled = ready_for_dispatch ∷ []
forward_transitions ready_for_dispatch = searching_for_driver ∷ []
forward_transitions searching_for_driver = driver_assigned ∷ no_eligible_driver ∷ []
forward_transitions driver_assigned = driver_en_route ∷ []
forward_transitions driver_en_route = driver_arrived ∷ []
forward_transitions driver_arrived = awaiting_ridecheck ∷ []
forward_transitions awaiting_ridecheck = passenger_verified ∷ []
forward_transitions passenger_verified = in_progress ∷ []
forward_transitions in_progress = arriving ∷ []
forward_transitions arriving = completed ∷ []
forward_transitions completed = payment_processing ∷ []
forward_transitions payment_processing = paid ∷ payment_failed ∷ []
forward_transitions paid = closed ∷ []
forward_transitions closed = []
forward_transitions _ = []

unfoldable is_exception_booking_status : BookingStatus → Bool
unfolding BookingStatus-discrete
is_exception_booking_status status =
    includes BookingStatus-discrete exception_booking_statuses status

unfoldable pub can_use_canonical_forward_transition : BookingStatus → BookingStatus → Bool
unfolding is_exception_booking_status forward_transitions BookingStatus-discrete
can_use_canonical_forward_transition from to = elim (is_exception_booking_status from) [
  | true ↦ false
  | false ↦ includes BookingStatus-discrete (forward_transitions from) to
]

pub data TransitionError : Type 0 where
  invalid_canonical_transition : BookingStatus → BookingStatus → TransitionError

unfoldable pub assert_canonical_forward_transition :
    BookingStatus → BookingStatus → Result TransitionError (Unit {0})
unfolding can_use_canonical_forward_transition
assert_canonical_forward_transition from to =
    require (can_use_canonical_forward_transition from to) (invalid_canonical_transition from to)
