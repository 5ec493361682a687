-- ===== src/Driver/Daily.antt =====
-- packages/domain/src/driver-daily-operations.ts: informed offers, connectivity, support and supply.
pub mod Laws
use dazat_mobility.Base.{
  ℕ, Bool, true, false, ◌&&◌, ◌||◌, not, Option, none, some, List, [], ◌∷◌, collect, is_empty,
  some_of, Date, invalid, at, ms_between, Number, natural, less, less_eq, is_finite,
  is_safe_integer, if◌then◌else◌,
}
use dazat_mobility.Base.Texts.{Text, has_content, has_content_opt, is_currency_code}
use dazat_mobility.Base.Results.{Result, ok, err, require, ◌>>=◌, ◌>>◌}

pub record DriverOfferDisclosureInput : Type 0 where
  pub pickup_distance_metres : Option Number
  pub pickup_eta_minutes : Option Number
  pub service_codes : List Text
  pub journey_context_labels : List Text
  pub expected_earning_amount_minor : Option Number
  pub expected_earning_currency : Option Text
  pub expected_earning_policy_version : Option Text
  pub expected_earning_derived_from_rider_fare : Bool
  pub ordinary_decline_penalty_applied : Bool

pub data MissingDisclosure : Type 0 where
  pickup_distance pickup_eta service_type journey_context : MissingDisclosure
  expected_or_estimated_earning independent_driver_earning_basis : MissingDisclosure
  non_punitive_ordinary_decline : MissingDisclosure

pub record DriverOfferDisclosureDecision : Type 0 where
  pub informed_choice_ready : Bool
  pub acceptance_allowed : Bool
  pub missing_disclosures : List MissingDisclosure
  pub blind_offer_prohibited : Bool
  pub ordinary_decline_penalty_applied : Bool
  pub expected_earning_derived_from_rider_fare : Bool

-- x === null || !Number.isFinite(x) || x < 0
abbrev pub not_a_measure : Option Number → Bool
not_a_measure none = true
not_a_measure (some x) = not (is_finite x) || less x (natural 0)

-- x === null || !Number.isSafeInteger(x) || x < 0
abbrev pub not_an_amount : Option Number → Bool
not_an_amount none = true
not_an_amount (some x) = not (is_safe_integer x) || less x (natural 0)

-- !currency || !/^[A-Z]{3}$/.test(currency); the empty text fails the pattern too.
abbrev pub not_a_currency : Option Text → Bool
not_a_currency none = true
not_a_currency (some c) = not (is_currency_code c)

-- `list.map((v) => v.trim()).filter(Boolean).length` is not zero.
abbrev some_content : List Text → Bool
some_content = some_of has_content

unfoldable pub disclosure_rows : DriverOfferDisclosureInput → List (Bool × MissingDisclosure)
unfolding has_content has_content_opt is_currency_code
disclosure_rows i =
    (not_a_measure i.pickup_distance_metres, pickup_distance)
    ∷ (not_a_measure i.pickup_eta_minutes, pickup_eta)
    ∷ (not (some_content i.service_codes), service_type)
    ∷ (not (some_content i.journey_context_labels), journey_context)
    ∷ (
      not_an_amount i.expected_earning_amount_minor
          || not_a_currency i.expected_earning_currency
          || not (has_content_opt i.expected_earning_policy_version),
      expected_or_estimated_earning,
    )
    ∷ (i.expected_earning_derived_from_rider_fare, independent_driver_earning_basis)
    ∷ (i.ordinary_decline_penalty_applied, non_punitive_ordinary_decline)
    ∷ []

unfoldable pub evaluate_driver_offer_disclosure :
    DriverOfferDisclosureInput → DriverOfferDisclosureDecision
unfolding disclosure_rows
evaluate_driver_offer_disclosure i =
    let missing : List MissingDisclosure = collect (disclosure_rows i) in
    let ready = is_empty missing in
    record {
      informed_choice_ready = ready;
      acceptance_allowed = ready;
      missing_disclosures = missing;
      blind_offer_prohibited = true;
      ordinary_decline_penalty_applied = false;
      expected_earning_derived_from_rider_fare = false;
    }

pub data DriverConnectivityState : Type 0 where
  online degraded offline recovering stale : DriverConnectivityState

pub record ConnectivityAssessmentInput : Type 0 where
  pub network_reachable : Bool
  pub last_server_sync_at : Option Date
  pub now : Date
  pub maximum_fresh_age_ms : Number
  pub authoritative_snapshot_applied : Bool
  pub queued_critical_event_count : Number

pub record ConnectivityAssessment : Type 0 where
  pub state : DriverConnectivityState
  pub authoritative_snapshot_required : Bool
  pub speculative_state_may_be_trusted : Bool
  pub queued_critical_events_executed_by_reconciliation : Bool
  pub queued_critical_event_count : Number

pub data ConnectivityError : Type 0 where
  invalid_event_count invalid_freshness_window : ConnectivityError

-- The age of the last sync, infinite where there was none.
abbrev pub sync_age : Date → Option Date → Number
sync_age now none = Number.pos_infinity
sync_age now (some sync) = ms_between now sync

abbrev needs_snapshot : DriverConnectivityState → Bool
needs_snapshot recovering = true
needs_snapshot stale = true
needs_snapshot offline = true
needs_snapshot _ = false

unfoldable pub connectivity_state : ConnectivityAssessmentInput → DriverConnectivityState
connectivity_state i =
    let age = sync_age i.now i.last_server_sync_at in
    if not i.network_reachable
    then offline
    else if not i.authoritative_snapshot_applied
    then recovering
    else if less age (natural 0) || less i.maximum_fresh_age_ms age
    then stale
    else if less (natural 0) i.queued_critical_event_count
    then degraded
    else online

unfoldable pub assess_driver_connectivity :
    ConnectivityAssessmentInput → Result ConnectivityError ConnectivityAssessment
unfolding connectivity_state
assess_driver_connectivity i = do
  require
      (is_safe_integer i.queued_critical_event_count
        && not (less i.queued_critical_event_count (natural 0)))
      invalid_event_count
  require (is_finite i.maximum_fresh_age_ms && not (less_eq i.maximum_fresh_age_ms (natural 0)))
      invalid_freshness_window
  ok (record {
    state = connectivity_state i;
    authoritative_snapshot_required = needs_snapshot (connectivity_state i);
    speculative_state_may_be_trusted = false;
    queued_critical_events_executed_by_reconciliation = false;
    queued_critical_event_count = i.queued_critical_event_count;
  })

pub data QueuedCriticalEventKind : Type 0 where
  sos silent_assistance rider_conduct location_observation : QueuedCriticalEventKind
  arrival_communication_ack : QueuedCriticalEventKind

pub data SubmissionRoute : Type 0 where
  canonical_safety_command canonical_rider_conduct_command : SubmissionRoute
  authoritative_location_observation_command : SubmissionRoute
  communication_acknowledgement_command : SubmissionRoute

unfoldable queued_critical_event_submission_route : QueuedCriticalEventKind → SubmissionRoute
queued_critical_event_submission_route sos = canonical_safety_command
queued_critical_event_submission_route silent_assistance = canonical_safety_command
queued_critical_event_submission_route rider_conduct = canonical_rider_conduct_command
queued_critical_event_submission_route location_observation =
    authoritative_location_observation_command
queued_critical_event_submission_route arrival_communication_ack =
    communication_acknowledgement_command

pub data DriverSupportCategory : Type 0 where
  safety breakdown payments account compliance technical passenger fleet : DriverSupportCategory

pub data DriverSupportRisk : Type 0 where
  routine priority high_risk_active : DriverSupportRisk

pub record SupportInput : Type 0 where
  pub category : DriverSupportCategory
  pub active_journey : Bool
  pub immediate_danger : Bool
  pub service_continuity_at_risk : Bool

pub record SupportDecision : Type 0 where
  pub risk : DriverSupportRisk
  pub human_escalation_required : Bool
  pub external_service_contacted : Bool

abbrev pub is_journey_critical : DriverSupportCategory → Bool
is_journey_critical safety = true
is_journey_critical breakdown = true
is_journey_critical passenger = true
is_journey_critical _ = false

unfoldable pub evaluate_driver_support_routing : SupportInput → SupportDecision
evaluate_driver_support_routing i =
    let high =
      i.immediate_danger
      || (i.active_journey && is_journey_critical i.category)
      || i.service_continuity_at_risk in
    record {
      risk =
          if high
          then high_risk_active
          else if not high && i.active_journey
          then priority
          else routine;
      human_escalation_required = high;
      external_service_contacted = false;
    }

-- The kind is one of the two that the type allows.
pub data SupplySignalKind : Type 0 where
  current_observation forecast : SupplySignalKind

pub record SupplySignal : Type 0 where
  pub kind : SupplySignalKind
  pub observed_or_forecast_at : Date
  pub evidence_references : List Text
  pub capability_code : Text
  pub guaranteed_earnings_claim : Bool

abbrev is_valid_date : Date → Bool
is_valid_date invalid = false
is_valid_date (at _) = true

unfoldable supply_signal_may_be_published : SupplySignal → Bool
unfolding has_content
supply_signal_may_be_published i =
    is_valid_date i.observed_or_forecast_at
    && some_of has_content i.evidence_references
    && has_content i.capability_code
    && not i.guaranteed_earnings_claim

pub record HomewardPreference : Type 0 where
  pub driver_finishing_soon : Bool
  pub hard_eligibility_passed : Bool
  pub passenger_attribute_used : Bool
  pub guaranteed_trip_claimed : Bool
  pub preference_expired : Bool

unfoldable homeward_preference_may_influence_ranking : HomewardPreference → Bool
homeward_preference_may_influence_ranking i =
    i.driver_finishing_soon
    && i.hard_eligibility_passed
    && not i.passenger_attribute_used
    && not i.guaranteed_trip_claimed
    && not i.preference_expired

pub record ArrivalCommunicationPlan : Type 0 where
  pub authoritative_booking_pickup_used : Bool
  pub passenger_gps_assumed_as_pickup : Bool
  pub recipient_roles_scoped : Bool
  pub direct_contact_details_exposed : Bool

unfoldable arrival_communication_plan_is_safe : ArrivalCommunicationPlan → Bool
arrival_communication_plan_is_safe i =
    i.authoritative_booking_pickup_used
    && not i.passenger_gps_assumed_as_pickup
    && i.recipient_roles_scoped
    && not i.direct_contact_details_exposed
