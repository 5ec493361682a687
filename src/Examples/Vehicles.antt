-- ===== src/Examples/Vehicles.antt =====
-- Vehicles and communications at concrete inputs.
use dazat_mobility.Base.{true, false, some, List, [], ◌∷◌, ◌≡◌, refl, ◌⊎◌, every, at}
use dazat_mobility.Base.Texts.{units, trim, has_content, has_content_opt}
use dazat_mobility.Fleet.{
  available, reserved, assigned, repair, quarantined, retired, can_transition_fleet_vehicle_state,
  VehicleAssignmentPermissionInput, evaluate_vehicle_assignment_permission, assignment_rows,
}
use dazat_mobility.Fleet.Laws.{assignable_iff, inspection_before_use, is_broken}
use dazat_mobility.Maintenance.{
  PreShiftItemResult, PreShiftCheckItem, accessibility_equipment, PreShiftCheckInput,
  pre_shift_decision, evaluate_pre_shift_check, MaintenanceOperatingGateInput, overdue,
}
use dazat_mobility.Maintenance.Laws.{IsClear, pre_shift_permits}
use dazat_mobility.Communications.{
  CommunicationPurpose, CommunicationPriority, CommunicationChannel, CommunicationChannelCandidate,
  CommunicationRouteInput, RouteState, ChannelHealthState, plan_communication_route, safe_channels,
  fixed_route_decision, CommunicationStatus, CommunicationCurrencyInput,
}
use dazat_mobility.Communications.Laws.{route_uses}

abbrev pairing : VehicleAssignmentPermissionInput
pairing = record {
  driver_operating_eligible = true;
  driver_vehicle_authorised = true;
  pair_insurance_current = true;
  vehicle_eligible = true;
  fleet_state = reserved;
  agreement_active = true;
  validation_current = true;
  external_fleet_organisation = false;
  external_fleet_organisation_active = false;
  capabilities_explicit_and_current = true;
}

assignable_iff_example :
    (true ≡ true)
    × (true ≡ true)
    × (true ≡ true)
    × (true ≡ true)
    × (true ≡ true)
    × ((reserved ≡ available) ⊎ (reserved ≡ reserved) ⊎ (reserved ≡ assigned))
    × (true ≡ true)
    × (true ≡ true)
    × (false ≡ true → false ≡ true)
unfolding evaluate_vehicle_assignment_permission assignment_rows
assignable_iff_example = (assignable_iff pairing).0 refl

inspection_before_use_example : every is_broken (quarantined ∷ repair ∷ retired ∷ []) ≡ true
unfolding can_transition_fleet_vehicle_state
inspection_before_use_example =
    inspection_before_use repair (quarantined ∷ repair ∷ retired ∷ []) refl refl refl

abbrev results : PreShiftCheckItem → PreShiftItemResult
results accessibility_equipment = PreShiftItemResult.not_applicable
results _ = PreShiftItemResult.pass

abbrev check : PreShiftCheckInput
check = record { items = results; uncertain_concern_text = some (units " ") }

pre_shift_permits_example : IsClear check
unfolding evaluate_pre_shift_check has_content_opt has_content trim
pre_shift_permits_example = (pre_shift_permits check (pre_shift_decision false false) refl).2 refl

abbrev gate : MaintenanceOperatingGateInput
gate = record {
  active_plan_present = true;
  active_requirements_present = true;
  highest_urgency = some overdue;
  all_services_restriction_active = false;
  unresolved_safety_critical_recall = false;
  restricted_service_codes = units "WAV" ∷ [];
  requested_service_codes = units "EXECUTIVE" ∷ [];
}

abbrev candidates : List CommunicationChannelCandidate
candidates =
    record {
      channel = CommunicationChannel.sms;
      contact_point_verified = true;
      permission_allowed = true;
      health = ChannelHealthState.healthy;
      compromised = true;
    }
    ∷ record {
      channel = CommunicationChannel.push;
      contact_point_verified = false;
      permission_allowed = true;
      health = ChannelHealthState.degraded;
      compromised = false;
    }
    ∷ []

abbrev alert : CommunicationRouteInput
alert = record {
  purpose = CommunicationPurpose.safety;
  priority = CommunicationPriority.p2;
  candidates = candidates;
  marketing_consent_granted = false;
  quiet_hours_active = true;
  silent_assistance = false;
}

route_uses_example :
    ((plan_communication_route alert).state ≡ RouteState.routable)
    × ((plan_communication_route alert).fallback_required ≡ true)
unfolding plan_communication_route safe_channels fixed_route_decision
route_uses_example = (route_uses alert CommunicationChannel.push).1 refl

abbrev update : CommunicationCurrencyInput
update = record {
  communication_status = CommunicationStatus.queued;
  source_aggregate_version = 4;
  current_aggregate_version = 4;
  expires_at = some (at 700_000);
  now = at 600_000;
}
