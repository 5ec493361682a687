-- ===== src/Fleet/Laws.antt =====
-- The publication of an offer and the assignment of a vehicle (fleet-operations.ts).
use dazat_mobility.Base.{
  Bool, true, false, not, ◌&&◌, List, [], ◌∷◌, ◌≡◌, refl, ◌↔◌, ◌⊎◌, arith, collect-empty_iff, every,
}
use dazat_mobility.Fleet.{
  FleetVehicleState, available, reserved, assigned, retired, repair, quarantined,
  awaiting_inspection, can_transition_fleet_vehicle_state, VehicleAssignmentPermissionInput,
  assignment_rows, evaluate_vehicle_assignment_permission,
}

-- A vehicle may be assigned exactly when the driver is eligible, authorised and insured for it, the
-- vehicle is eligible, available, reserved or assigned and of explicit capabilities, the agreement
-- is active, the validation is current, and an external organisation is active.
pub assignable_iff :
    (i : VehicleAssignmentPermissionInput)
    → ((evaluate_vehicle_assignment_permission i).assignable ≡ true) ↔ (
        (i.driver_operating_eligible ≡ true)
        × (i.driver_vehicle_authorised ≡ true)
        × (i.pair_insurance_current ≡ true)
        × (i.vehicle_eligible ≡ true)
        × (i.capabilities_explicit_and_current ≡ true)
        × ((i.fleet_state ≡ available) ⊎ (i.fleet_state ≡ reserved) ⊎ (i.fleet_state ≡ assigned))
        × (i.agreement_active ≡ true)
        × (i.validation_current ≡ true)
        × (i.external_fleet_organisation ≡ true → i.external_fleet_organisation_active ≡ true))
unfolding evaluate_vehicle_assignment_permission assignment_rows
assignable_iff i = let facts = collect-empty_iff (assignment_rows i) in ground arith

-- A path of states, each allowed after the one before.
abbrev fleet_chain_ok : FleetVehicleState → List FleetVehicleState → Bool
fleet_chain_ok s [] = true
fleet_chain_ok s (t ∷ ts) = can_transition_fleet_vehicle_state s t && fleet_chain_ok t ts

abbrev pub is_broken : FleetVehicleState → Bool
is_broken repair = true
is_broken quarantined = true
is_broken retired = true
is_broken _ = false

abbrev is_inspection : FleetVehicleState → Bool
is_inspection awaiting_inspection = true
is_inspection _ = false

broken_step :
    (s t : FleetVehicleState)
    → can_transition_fleet_vehicle_state s t ≡ true
    → is_broken s ≡ true
    → (is_broken t ≡ true) ⊎ (is_inspection t ≡ true)
unfolding can_transition_fleet_vehicle_state
broken_step available t h k = cc
broken_step _ t h k = ground arith

-- On an allowed path without AWAITING_INSPECTION, a vehicle that is in repair, quarantined or
-- retired stays in one of those three states.
pub inspection_before_use :
    (s : FleetVehicleState) (path : List FleetVehicleState)
    → is_broken s ≡ true
    → fleet_chain_ok s path ≡ true
    → every (λ t. not (is_inspection t)) path ≡ true
    → every is_broken path ≡ true
inspection_before_use s [] b c h = refl
inspection_before_use s (t ∷ ts) b c h = ground (arith, broken_step s t, inspection_before_use t ts)
