-- ===== src/Fleet.antt =====
-- packages/domain/src/fleet-operations.ts.
pub mod Laws
use dazat_mobility.Base.{
  Bool, true, false, ◌&&◌, ◌||◌, not, Option, none, some, List, [], ◌∷◌, includes, collect,
  is_empty, every, some_of, Number, natural, less, less_eq, is_integer, is_safe_integer,
}
use dazat_mobility.Base.Texts.{Text, has_content, has_content_opt, is_currency_code}

pub data VehicleAccessRoute : Type 0 where
  driver_owned weekly_rent rent_to_own fixed_term_lease lease_to_own : VehicleAccessRoute

pub data FleetTier : Type 0 where
  latest_model_new brand_new_outgoing_model_year dazat_approved_used driver_owned : FleetTier

pub data FleetVehicleState : Type 0 where
  available reserved assigned in_service maintenance repair : FleetVehicleState
  quarantined awaiting_inspection return_pending retired : FleetVehicleState

unfoldable pub FleetVehicleState-discrete : Discrete FleetVehicleState
FleetVehicleState-discrete = hlevel

unfoldable fleet_state_transitions : FleetVehicleState → List FleetVehicleState
fleet_state_transitions available =
    reserved ∷ assigned ∷ maintenance ∷ repair ∷ quarantined ∷ awaiting_inspection ∷ retired ∷ []
fleet_state_transitions reserved = available ∷ assigned ∷ maintenance ∷ quarantined ∷ retired ∷ []
fleet_state_transitions assigned =
    in_service ∷ return_pending ∷ maintenance ∷ repair ∷ quarantined ∷ []
fleet_state_transitions in_service = return_pending ∷ maintenance ∷ repair ∷ quarantined ∷ []
fleet_state_transitions maintenance =
    available ∷ repair ∷ quarantined ∷ awaiting_inspection ∷ retired ∷ []
fleet_state_transitions repair = awaiting_inspection ∷ quarantined ∷ retired ∷ []
fleet_state_transitions quarantined = awaiting_inspection ∷ repair ∷ retired ∷ []
fleet_state_transitions awaiting_inspection =
    available ∷ maintenance ∷ repair ∷ quarantined ∷ retired ∷ []
fleet_state_transitions return_pending =
    maintenance ∷ repair ∷ quarantined ∷ awaiting_inspection ∷ retired ∷ []
fleet_state_transitions retired = []

unfoldable pub can_transition_fleet_vehicle_state : FleetVehicleState → FleetVehicleState → Bool
unfolding fleet_state_transitions FleetVehicleState-discrete
can_transition_fleet_vehicle_state from to =
    includes FleetVehicleState-discrete (fleet_state_transitions from) to

pub record MarketplacePublicationInput : Type 0 where
  pub access_route : VehicleAccessRoute
  pub tier : FleetTier
  pub periodic_charge_minor : Number
  pub total_contract_cost_minor : Number
  pub deposit_minor : Number
  pub currency : Text
  pub term_days : Option Number
  pub mileage_terms_explicit : Bool
  pub end_of_term_conditions_explicit : Bool
  pub included_services_explicit : Bool
  pub excluded_services_explicit : Bool
  pub ownership_transfer_terms_explicit : Bool
  pub supplier_stock_verified : Bool
  pub warranty_terms_verified : Bool

pub data PublicationBlocker : Type 0 where
  invalid_minor_unit_amount invalid_currency access_route_tier_mismatch : PublicationBlocker
  periodic_charge_required total_contract_cost_required term_required : PublicationBlocker
  mileage_terms_required end_of_term_conditions_required : PublicationBlocker
  service_inclusions_exclusions_required ownership_transfer_terms_required : PublicationBlocker
  supplier_stock_not_verified warranty_terms_not_verified : PublicationBlocker

pub record MarketplacePublicationDecision : Type 0 where
  pub publishable : Bool
  pub blockers : List PublicationBlocker
  pub generic_discount_claim_allowed : Bool

-- !Number.isSafeInteger(amount) || amount < 0
abbrev bad_amount : Number → Bool
bad_amount n = not (is_safe_integer n) || less n (natural 0)

abbrev route_owned : VehicleAccessRoute → Bool
route_owned VehicleAccessRoute.driver_owned = true
route_owned _ = false

abbrev tier_owned : FleetTier → Bool
tier_owned FleetTier.driver_owned = true
tier_owned _ = false

abbrev transfers_ownership : VehicleAccessRoute → Bool
transfers_ownership rent_to_own = true
transfers_ownership lease_to_own = true
transfers_ownership _ = false

-- a !== b
abbrev differ : Bool → Bool → Bool
differ true b = not b
differ false b = b

-- !termDays || !Number.isInteger(termDays) || termDays <= 0; NaN is no integer and 0 is not above 0.
abbrev no_term : Option Number → Bool
no_term none = true
no_term (some t) = not (is_integer t) || less_eq t (natural 0)

unfoldable publication_rows : MarketplacePublicationInput → List (Bool × PublicationBlocker)
unfolding is_currency_code
publication_rows i =
    let supplied = not (route_owned i.access_route) in
    (
      some_of bad_amount
          (i.periodic_charge_minor ∷ i.total_contract_cost_minor ∷ i.deposit_minor ∷ []),
      invalid_minor_unit_amount,
    )
    ∷ (not (is_currency_code i.currency), invalid_currency)
    ∷ (differ (route_owned i.access_route) (tier_owned i.tier), access_route_tier_mismatch)
    ∷ (supplied && less_eq i.periodic_charge_minor (natural 0), periodic_charge_required)
    ∷ (supplied && less_eq i.total_contract_cost_minor (natural 0), total_contract_cost_required)
    ∷ (supplied && no_term i.term_days, term_required)
    ∷ (not i.mileage_terms_explicit, mileage_terms_required)
    ∷ (not i.end_of_term_conditions_explicit, end_of_term_conditions_required)
    ∷ (
      not i.included_services_explicit || not i.excluded_services_explicit,
      service_inclusions_exclusions_required,
    )
    ∷ (
      transfers_ownership i.access_route && not i.ownership_transfer_terms_explicit,
      ownership_transfer_terms_required,
    )
    ∷ (not i.supplier_stock_verified, supplier_stock_not_verified)
    ∷ (not i.warranty_terms_verified, warranty_terms_not_verified)
    ∷ []

unfoldable evaluate_marketplace_publication :
    MarketplacePublicationInput → MarketplacePublicationDecision
evaluate_marketplace_publication i =
    let blockers : List PublicationBlocker = collect (publication_rows i) in
    record {
      publishable = is_empty blockers;
      blockers = blockers;
      generic_discount_claim_allowed = false;
    }

pub record VehicleCapabilityInput : Type 0 where
  pub passenger_capacity : Number
  pub luggage_capacity : Number
  pub wav_capable : Bool
  pub school_capable : Bool
  pub executive_capable : Bool
  pub airport_capable : Bool
  pub evidence_references : List Text
  pub verified_by_authority : Bool

unfoldable vehicle_capabilities_are_explicit_and_verified : VehicleCapabilityInput → Bool
unfolding has_content
vehicle_capabilities_are_explicit_and_verified i =
    is_integer i.passenger_capacity
    && less (natural 0) i.passenger_capacity
    && is_integer i.luggage_capacity
    && less_eq (natural 0) i.luggage_capacity
    && not (is_empty i.evidence_references)
    && every has_content i.evidence_references
    && i.verified_by_authority

pub record DepositDeduction : Type 0 where
  pub amount_minor : Number
  pub held_deposit_minor : Number
  pub condition_evidence_references : List Text
  pub agreement_basis_reference : Option Text
  pub dispute_route_provided : Bool

unfoldable deposit_deduction_may_advance : DepositDeduction → Bool
unfolding has_content has_content_opt
deposit_deduction_may_advance i =
    is_safe_integer i.amount_minor
    && less (natural 0) i.amount_minor
    && is_safe_integer i.held_deposit_minor
    && less_eq i.amount_minor i.held_deposit_minor
    && not (is_empty i.condition_evidence_references)
    && every has_content i.condition_evidence_references
    && has_content_opt i.agreement_basis_reference
    && i.dispute_route_provided

pub record VehicleAssignmentPermissionInput : Type 0 where
  pub driver_operating_eligible : Bool
  pub driver_vehicle_authorised : Bool
  pub pair_insurance_current : Bool
  pub vehicle_eligible : Bool
  pub fleet_state : FleetVehicleState
  pub agreement_active : Bool
  pub validation_current : Bool
  pub external_fleet_organisation : Bool
  pub external_fleet_organisation_active : Bool
  pub capabilities_explicit_and_current : Bool

pub data AssignmentBlocker : Type 0 where
  driver_operating_eligibility_required driver_vehicle_authorisation_required : AssignmentBlocker
  driver_vehicle_insurance_not_current vehicle_not_eligible : AssignmentBlocker
  vehicle_capabilities_not_explicit_or_current fleet_state_not_assignable : AssignmentBlocker
  active_fleet_agreement_required fresh_assignment_validation_required : AssignmentBlocker
  external_fleet_organisation_not_active : AssignmentBlocker

pub record VehicleAssignmentPermissionDecision : Type 0 where
  pub assignable : Bool
  pub blockers : List AssignmentBlocker
  pub external_tenancy_bypass_allowed : Bool
  pub replacement_requires_fresh_validation : Bool

abbrev state_assignable : FleetVehicleState → Bool
state_assignable available = true
state_assignable reserved = true
state_assignable assigned = true
state_assignable _ = false

unfoldable pub assignment_rows : VehicleAssignmentPermissionInput → List (Bool × AssignmentBlocker)
assignment_rows i =
    (not i.driver_operating_eligible, driver_operating_eligibility_required)
    ∷ (not i.driver_vehicle_authorised, driver_vehicle_authorisation_required)
    ∷ (not i.pair_insurance_current, driver_vehicle_insurance_not_current)
    ∷ (not i.vehicle_eligible, vehicle_not_eligible)
    ∷ (not i.capabilities_explicit_and_current, vehicle_capabilities_not_explicit_or_current)
    ∷ (not (state_assignable i.fleet_state), fleet_state_not_assignable)
    ∷ (not i.agreement_active, active_fleet_agreement_required)
    ∷ (not i.validation_current, fresh_assignment_validation_required)
    ∷ (
      i.external_fleet_organisation && not i.external_fleet_organisation_active,
      external_fleet_organisation_not_active,
    )
    ∷ []

unfoldable pub evaluate_vehicle_assignment_permission :
    VehicleAssignmentPermissionInput → VehicleAssignmentPermissionDecision
evaluate_vehicle_assignment_permission i =
    let blockers : List AssignmentBlocker = collect (assignment_rows i) in
    record {
      assignable = is_empty blockers;
      blockers = blockers;
      external_tenancy_bypass_allowed = false;
      replacement_requires_fresh_validation = true;
    }
