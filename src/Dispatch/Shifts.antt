-- ===== src/Dispatch/Shifts.antt =====
-- services/api/src/modules/dispatch/dispatch-service.ts: recordDriverShiftAvailabilityEvent.
use dazat_mobility.Base.{ℕ, true, false, ◌&&◌, Option, none, some, [], ◌∷◌, ◌++◌, ◌==◌}
use dazat_mobility.Base.Texts.{Text}
use dazat_mobility.Base.Results.{Result, ok, err}
use dazat_mobility.Booking.Store.{first_of, update_where}
use dazat_mobility.Dispatch.Availability.{DriverAvailabilityStatus, offline, assigned}
use dazat_mobility.Dispatch.Market.{
  ShiftRow, ShiftEventType, shift_started, shift_ended, offer_accepted, work_intent_changed, Market,
  DispatchError, conflict, next_id, made,
}

abbrev pub active_shift : Market → ℕ → Option ShiftRow
active_shift m driver = first_of (λ s. s.driver_id == driver && s.active) m.shifts

abbrev shift_event :
    ℕ
    → ℕ
    → ShiftEventType
    → DriverAvailabilityStatus
    → DriverAvailabilityStatus
    → ℕ
    → ℕ
    → Market
    → Market
shift_event shift driver event_type from to version command m = record m {
  shift_events =
      m.shift_events
      ++ record {
        shift_id = shift;
        driver_id = driver;
        event_type = event_type;
        from_status = from;
        to_status = to;
        version = version;
        command_id = command;
      }
        ∷ [];
}

abbrev event_type_of : DriverAvailabilityStatus → ShiftEventType
event_type_of offline = shift_ended
event_type_of assigned = offer_accepted
event_type_of _ = work_intent_changed

abbrev pub end_shift : DriverAvailabilityStatus → ℕ → Market → Market
end_shift offline shift m = record m {
  shifts = update_where (λ s. s.id == shift) (λ s. record s { active = false }) m.shifts;
}
end_shift _ shift m = m

-- An active shift needs a region and a vehicle; the empty text is none.
abbrev pub start_shift :
    ℕ
    → DriverAvailabilityStatus
    → DriverAvailabilityStatus
    → ℕ
    → Option Text
    → Option ℕ
    → ℕ
    → Market
    → Result DispatchError Market
start_shift driver from offline version region vehicle command m = ok m
start_shift driver from to version (some (c ∷ region)) (some vehicle) command m = ok (
    shift_event (next_id m) driver shift_started from to version command (
      made 1 (record m {
        shifts =
            m.shifts
            ++ record {
              id = next_id m;
              driver_id = driver;
              active = true;
              region_code = c ∷ region;
              vehicle_id = vehicle;
            }
              ∷ [];
      })))
start_shift driver from to version region vehicle command m = err conflict

unfoldable pub record_driver_shift_availability_event :
    ℕ
    → DriverAvailabilityStatus
    → DriverAvailabilityStatus
    → ℕ
    → Option Text
    → Option ℕ
    → ℕ
    → Market
    → Result DispatchError Market
record_driver_shift_availability_event driver from to version region vehicle command m =
    elim (active_shift m driver) [
      | none ↦ start_shift driver from to version region vehicle command m
      | some shift ↦ ok (
          shift_event shift.id driver (event_type_of to) from to version command
            (end_shift to shift.id m))
    ]
