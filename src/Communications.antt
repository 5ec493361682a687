-- ===== src/Communications.antt =====
-- packages/domain/src/communications.ts.
pub mod Laws
use dazat_mobility.Base.{
  ℕ, Bool, true, false, ◌&&◌, ◌||◌, not, Option, none, some, List, [], ◌∷◌, map, includes, is_empty,
  keep, distinct, Date, not_after, before, ◌==◌, if◌then◌else◌,
}

pub data CommunicationPurpose : Type 0 where
  booking_operational journey_operational safety school_safeguarding payment : CommunicationPurpose
  account_security driver_operations support business marketing : CommunicationPurpose

pub data CommunicationPriority : Type 0 where
  p0 p1 p2 p3 p4 : CommunicationPriority

pub data CommunicationChannel : Type 0 where
  in_app push sms email voice_call masked_call protected_chat authenticated_portal :
      CommunicationChannel

unfoldable pub CommunicationChannel-discrete : Discrete CommunicationChannel
CommunicationChannel-discrete = hlevel

pub data MessageDeliveryState : Type 0 where
  queued sent delivered read failed expired unknown suppressed_stale : MessageDeliveryState

pub data ChannelHealthState : Type 0 where
  healthy degraded unavailable unknown : ChannelHealthState

pub record CommunicationChannelCandidate : Type 0 where
  pub channel : CommunicationChannel
  pub contact_point_verified : Bool
  pub permission_allowed : Bool
  pub health : ChannelHealthState
  pub compromised : Bool

pub record CommunicationRouteInput : Type 0 where
  pub purpose : CommunicationPurpose
  pub priority : CommunicationPriority
  pub candidates : List CommunicationChannelCandidate
  pub marketing_consent_granted : Bool
  pub quiet_hours_active : Bool
  pub silent_assistance : Bool

pub data RouteState : Type 0 where
  routable deferred_quiet_hours suppressed_no_consent no_safe_channel : RouteState

pub record CommunicationRouteDecision : Type 0 where
  pub state : RouteState
  pub channels : List CommunicationChannel
  pub fallback_required : Bool
  pub marketing_separated_from_operational : Bool
  pub unsafe_or_compromised_channels_excluded : Bool
  pub provider_execution_authorised : Bool

abbrev pub is_critical_purpose : CommunicationPurpose → Bool
is_critical_purpose safety = true
is_critical_purpose school_safeguarding = true
is_critical_purpose account_security = true
is_critical_purpose _ = false

abbrev pub is_marketing : CommunicationPurpose → Bool
is_marketing marketing = true
is_marketing _ = false

abbrev pub is_urgent : CommunicationPriority → Bool
is_urgent p0 = true
is_urgent p1 = true
is_urgent _ = false

-- The authenticated channels that need no contact point.
abbrev pub is_contactless : CommunicationChannel → Bool
is_contactless in_app = true
is_contactless push = true
is_contactless protected_chat = true
is_contactless authenticated_portal = true
is_contactless _ = false

abbrev pub is_call : CommunicationChannel → Bool
is_call voice_call = true
is_call masked_call = true
is_call _ = false

abbrev pub is_unavailable : ChannelHealthState → Bool
is_unavailable unavailable = true
is_unavailable _ = false

unfoldable pub fixed_route_decision :
    RouteState → List CommunicationChannel → CommunicationRouteDecision
fixed_route_decision state channels = record {
  state = state;
  channels = channels;
  fallback_required = false;
  marketing_separated_from_operational = true;
  unsafe_or_compromised_channels_excluded = true;
  provider_execution_authorised = false;
}

-- The filters on the candidates, one after the other, the last by `all.indexOf(c) === index`.
unfoldable pub safe_channels : CommunicationRouteInput → List CommunicationChannel
unfolding CommunicationChannel-discrete
safe_channels i = distinct CommunicationChannel-discrete [] (
    map (λ c. c.channel)
      (keep (λ c. not i.silent_assistance || not (is_call c.channel))
        (keep (λ c. is_contactless c.channel || c.contact_point_verified)
          (keep (λ c. not (is_unavailable c.health))
            (keep (λ c. not c.compromised) (keep (λ c. c.permission_allowed) i.candidates))))))

unfoldable pub plan_communication_route : CommunicationRouteInput → CommunicationRouteDecision
unfolding fixed_route_decision
plan_communication_route i =
    let critical = is_urgent i.priority || is_critical_purpose i.purpose in
    if is_marketing i.purpose && not i.marketing_consent_granted
    then fixed_route_decision suppressed_no_consent []
    else if i.quiet_hours_active && not critical
    then fixed_route_decision deferred_quiet_hours []
    else if is_empty (safe_channels i)
    then fixed_route_decision no_safe_channel []
    else record (fixed_route_decision routable (safe_channels i)) { fallback_required = critical }

pub data CommunicationStatus : Type 0 where
  queued delivery_pending delivered ack_required acknowledged failed expired suppressed :
      CommunicationStatus

pub data SuppressionReason : Type 0 where
  source_version_stale expired terminal_state : SuppressionReason

pub record CommunicationCurrencyInput : Type 0 where
  pub communication_status : CommunicationStatus
  pub source_aggregate_version : ℕ
  pub current_aggregate_version : ℕ
  pub expires_at : Option Date
  pub now : Date

pub record CommunicationCurrency : Type 0 where
  pub current : Bool
  pub delivery_allowed : Bool
  pub suppression_reason : Option SuppressionReason

abbrev pub is_terminal : CommunicationStatus → Bool
is_terminal acknowledged = true
is_terminal CommunicationStatus.failed = true
is_terminal CommunicationStatus.expired = true
is_terminal suppressed = true
is_terminal _ = false

-- date && date.getTime() <= now.getTime()
abbrev pub passed : Option Date → Date → Bool
passed none now = false
passed (some d) now = not_after d now

-- The aggregate versions are natural numbers.
unfoldable pub assess_communication_currency : CommunicationCurrencyInput → CommunicationCurrency
assess_communication_currency i =
    if is_terminal i.communication_status
    then record {
      current = false;
      delivery_allowed = false;
      suppression_reason = some terminal_state;
    }
    else if passed i.expires_at i.now
    then record {
      current = false;
      delivery_allowed = false;
      suppression_reason = some SuppressionReason.expired;
    }
    else if not (i.source_aggregate_version == i.current_aggregate_version)
    then record {
      current = false;
      delivery_allowed = false;
      suppression_reason = some source_version_stale;
    }
    else record { current = true; delivery_allowed = true; suppression_reason = none }

pub data AcknowledgementAction : Type 0 where
  not_required waiting acknowledged human_escalation_required : AcknowledgementAction

abbrev is_undeliverable : MessageDeliveryState → Bool
is_undeliverable MessageDeliveryState.failed = true
is_undeliverable MessageDeliveryState.expired = true
is_undeliverable MessageDeliveryState.unknown = true
is_undeliverable suppressed_stale = true
is_undeliverable _ = false

abbrev pub is_set : Option Date → Bool
is_set none = false
is_set (some _) = true

pub record AcknowledgementInput : Type 0 where
  pub acknowledgement_required : Bool
  pub delivery_state : MessageDeliveryState
  pub acknowledgement_deadline : Option Date
  pub acknowledged_at : Option Date
  pub now : Date

unfoldable acknowledgement_action : AcknowledgementInput → AcknowledgementAction
acknowledgement_action i =
    if not i.acknowledgement_required
    then not_required
    else if is_set i.acknowledged_at
    then AcknowledgementAction.acknowledged
    else if is_undeliverable i.delivery_state || passed i.acknowledgement_deadline i.now
    then human_escalation_required
    else waiting

pub record ContactWindow : Type 0 where
  pub opens_at : Date
  pub expires_at : Date
  pub now : Date
  pub linked_case_or_journey_active : Bool
  pub personal_contact_details_exposed : Bool

unfoldable protected_contact_window_is_active : ContactWindow → Bool
protected_contact_window_is_active i =
    i.linked_case_or_journey_active
    && not_after i.opens_at i.now
    && before i.now i.expires_at
    && not i.personal_contact_details_exposed

pub record SecurityTemplate : Type 0 where
  pub purpose : CommunicationPurpose
  pub asks_for_password : Bool
  pub asks_for_full_pin : Bool
  pub asks_for_otp : Bool
  pub asks_for_device_linking_code : Bool

abbrev is_account_security : CommunicationPurpose → Bool
is_account_security account_security = true
is_account_security _ = false

unfoldable security_template_is_safe : SecurityTemplate → Bool
security_template_is_safe i =
    if not (is_account_security i.purpose)
    then true
    else not i.asks_for_password
      && not i.asks_for_full_pin
      && not i.asks_for_otp
      && not i.asks_for_device_linking_code
