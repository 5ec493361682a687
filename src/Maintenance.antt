-- ===== src/Maintenance.antt =====
-- packages/domain/src/maintenance-reliability.ts.
pub mod Laws
use dazat_mobility.Base.{
  Bool, true, false, ◌&&◌, ◌||◌, not, Option, none, some, List, [], ◌∷◌, includes, collect,
  is_empty, every, some_of, map, keep, Number, natural, less, is_safe_integer, if◌then◌else◌,
}
use dazat_mobility.Base.Texts.{Text, has_content, has_content_opt, member}
use dazat_mobility.Base.Results.{Result, ok, err, require, ◌>>=◌, ◌>>◌}

pub data MaintenanceUrgency : Type 0 where
  routine due_soon overdue safety_review do_not_use : MaintenanceUrgency

pub data PreShiftItemResult : Type 0 where
  pass fail not_sure not_applicable : PreShiftItemResult

unfoldable pub PreShiftItemResult-discrete : Discrete PreShiftItemResult
PreShiftItemResult-discrete = hlevel

pub data PreShiftCheckItem : Type 0 where
  tyres lights brakes steering mirrors seatbelts warning_indicators : PreShiftCheckItem
  accessibility_equipment : PreShiftCheckItem

abbrev pub pre_shift_check_items : List PreShiftCheckItem
pre_shift_check_items =
    tyres ∷ lights ∷ brakes ∷ steering ∷ mirrors ∷ seatbelts ∷ warning_indicators
    ∷ accessibility_equipment ∷ []

pub record PreShiftCheckInput : Type 0 where
  pub items : PreShiftCheckItem → PreShiftItemResult
  pub uncertain_concern_text : Option Text

pub data PreShiftOutcome : Type 0 where
  pass concern_reported fail : PreShiftOutcome

pub record PreShiftCheckDecision : Type 0 where
  pub outcome : PreShiftOutcome
  pub maintenance_urgency : MaintenanceUrgency
  pub vehicle_use_permitted : Bool
  pub create_defect : Bool
  pub driver_diagnosis_required : Bool
  pub creates_driver_fault_finding : Bool

pub data PreShiftError : Type 0 where
  core_item_not_applicable : PreShiftError

abbrev pub is_core : PreShiftCheckItem → Bool
is_core accessibility_equipment = false
is_core _ = true

abbrev pub is_not_applicable : PreShiftItemResult → Bool
is_not_applicable not_applicable = true
is_not_applicable _ = false

abbrev pub pre_shift_decision : Bool → Bool → PreShiftCheckDecision
pre_shift_decision failed uncertain =
    if failed
    then record {
      outcome = PreShiftOutcome.fail;
      maintenance_urgency = do_not_use;
      vehicle_use_permitted = false;
      create_defect = true;
      driver_diagnosis_required = false;
      creates_driver_fault_finding = false;
    }
    else if uncertain
    then record {
      outcome = concern_reported;
      maintenance_urgency = safety_review;
      vehicle_use_permitted = false;
      create_defect = true;
      driver_diagnosis_required = false;
      creates_driver_fault_finding = false;
    }
    else record {
      outcome = PreShiftOutcome.pass;
      maintenance_urgency = routine;
      vehicle_use_permitted = true;
      create_defect = false;
      driver_diagnosis_required = false;
      creates_driver_fault_finding = false;
    }

-- Every item has a result of the type, so the first test of the source throws for no input.
unfoldable pub evaluate_pre_shift_check :
    PreShiftCheckInput → Result PreShiftError PreShiftCheckDecision
unfolding PreShiftItemResult-discrete
evaluate_pre_shift_check i = do
  let values = map i.items pre_shift_check_items
  require (not (some_of (λ x. is_not_applicable (i.items x)) (keep is_core pre_shift_check_items)))
      core_item_not_applicable
  let failed = includes PreShiftItemResult-discrete values PreShiftItemResult.fail
  let uncertain =
      includes PreShiftItemResult-discrete values not_sure
      || has_content_opt i.uncertain_concern_text
  ok (pre_shift_decision failed uncertain)

pub record MaintenanceOperatingGateInput : Type 0 where
  pub active_plan_present : Bool
  pub active_requirements_present : Bool
  pub highest_urgency : Option MaintenanceUrgency
  pub all_services_restriction_active : Bool
  pub unresolved_safety_critical_recall : Bool
  pub restricted_service_codes : List Text
  pub requested_service_codes : List Text

pub data GateBlocker : Type 0 where
  active_maintenance_plan_required current_maintenance_requirements_required : GateBlocker
  vehicle_safety_review_required vehicle_do_not_use vehicle_all_services_restricted : GateBlocker
  unresolved_safety_critical_recall vehicle_service_restricted : GateBlocker

pub record MaintenanceOperatingGateDecision : Type 0 where
  pub operating_permitted : Bool
  pub blockers : List GateBlocker
  pub action_required : Bool
  pub overdue_automatically_proves_neglect : Bool

abbrev needs_review : Option MaintenanceUrgency → Bool
needs_review (some safety_review) = true
needs_review _ = false

abbrev unusable : Option MaintenanceUrgency → Bool
unusable (some do_not_use) = true
unusable _ = false

abbrev pub is_due : Option MaintenanceUrgency → Bool
is_due (some due_soon) = true
is_due (some overdue) = true
is_due _ = false

unfoldable pub gate_rows : MaintenanceOperatingGateInput → List (Bool × GateBlocker)
gate_rows i =
    (not i.active_plan_present, active_maintenance_plan_required)
    ∷ (not i.active_requirements_present, current_maintenance_requirements_required)
    ∷ (needs_review i.highest_urgency, vehicle_safety_review_required)
    ∷ (unusable i.highest_urgency, vehicle_do_not_use)
    ∷ (i.all_services_restriction_active, vehicle_all_services_restricted)
    ∷ (i.unresolved_safety_critical_recall, unresolved_safety_critical_recall)
    ∷ (
      some_of (λ code. member code i.restricted_service_codes) i.requested_service_codes,
      vehicle_service_restricted,
    )
    ∷ []

unfoldable pub evaluate_maintenance_operating_gate :
    MaintenanceOperatingGateInput → MaintenanceOperatingGateDecision
evaluate_maintenance_operating_gate i =
    let blockers : List GateBlocker = collect (gate_rows i) in
    record {
      operating_permitted = is_empty blockers;
      blockers = blockers;
      action_required = not (is_empty blockers) || is_due i.highest_urgency;
      overdue_automatically_proves_neglect = false;
    }

pub data VehicleDefectState : Type 0 where
  open_ under_review repair_required monitoring resolved closed : VehicleDefectState

unfoldable pub VehicleDefectState-discrete : Discrete VehicleDefectState
VehicleDefectState-discrete = hlevel

unfoldable defect_transitions : VehicleDefectState → List VehicleDefectState
defect_transitions open_ = under_review ∷ repair_required ∷ monitoring ∷ resolved ∷ []
defect_transitions under_review = repair_required ∷ monitoring ∷ resolved ∷ []
defect_transitions repair_required = under_review ∷ monitoring ∷ resolved ∷ []
defect_transitions monitoring = under_review ∷ repair_required ∷ resolved ∷ []
defect_transitions resolved = closed ∷ under_review ∷ []
defect_transitions closed = []

unfoldable can_transition_vehicle_defect : VehicleDefectState → VehicleDefectState → Bool
unfolding defect_transitions VehicleDefectState-discrete
can_transition_vehicle_defect from to =
    includes VehicleDefectState-discrete (defect_transitions from) to

unfoldable repair_may_be_authorised : (estimate warranty_first authorised : Bool) → Bool
repair_may_be_authorised estimate warranty_first authorised =
    estimate && warranty_first && authorised

pub record ReturnToService : Type 0 where
  pub completion_record_present : Bool
  pub post_repair_inspection_passed : Bool
  pub open_safety_critical_defect : Bool
  pub active_vehicle_restriction : Bool
  pub required_maintenance_outstanding : Bool
  pub independent_reviewer : Bool
  pub evidence_references : List Text

unfoldable return_to_service_may_be_approved : ReturnToService → Bool
unfolding has_content
return_to_service_may_be_approved i =
    i.completion_record_present
    && i.post_repair_inspection_passed
    && not i.open_safety_critical_defect
    && not i.active_vehicle_restriction
    && not i.required_maintenance_outstanding
    && i.independent_reviewer
    && not (is_empty i.evidence_references)
    && every has_content i.evidence_references

pub record VerifiedPerk : Type 0 where
  pub provider_verified : Bool
  pub benefit_terms_explicit : Bool
  pub eligibility_explicit : Bool
  pub redemption_route_explicit : Bool
  pub evidence_references : List Text
  pub currently_effective : Bool

unfoldable verified_perk_may_be_published : VerifiedPerk → Bool
verified_perk_may_be_published i =
    i.provider_verified
    && i.benefit_terms_explicit
    && i.eligibility_explicit
    && i.redemption_route_explicit
    && i.currently_effective
    && not (is_empty i.evidence_references)

pub data WholeLifeCostComponent : Type 0 where
  acquisition depreciation insurance service repair tyres energy downtime resale :
      WholeLifeCostComponent

abbrev whole_life_cost_components : List WholeLifeCostComponent
whole_life_cost_components =
    acquisition ∷ depreciation ∷ insurance ∷ service ∷ repair ∷ WholeLifeCostComponent.tyres
    ∷ energy ∷ downtime ∷ resale ∷ []

unfoldable whole_life_cost_evidence_is_complete :
    (WholeLifeCostComponent → Number) → List Text → Bool → Bool
whole_life_cost_evidence_is_complete components evidence brochure_price_only =
    not brochure_price_only
    && every (λ c. is_safe_integer (components c) && not (less (components c) (natural 0)))
        whole_life_cost_components
    && not (is_empty evidence)
