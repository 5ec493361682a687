-- ===== src/Telephony/Handoff.antt =====
-- packages/domain/src/telephony-voice.ts: the handoff to a person, payments, the resumption of a call
-- and recordings.
use dazat_mobility.Base.{
  is_empty, Bool, true, false, ◌&&◌, ◌||◌, not, Option, none, some, Number, natural, less_eq,
  if◌then◌else◌,
}
use dazat_mobility.Base.Texts.{Text}
use dazat_mobility.Telephony.{
  CallQueue, account_security, routine_support, safety, school_safeguarding, telephone_booking,
}

pub record HandoffInput : Type 0 where
  pub recognition_failure_count : Number
  pub low_confidence_address : Bool
  pub low_confidence_passenger_identity : Bool
  pub safety_concern : Bool
  pub safeguarding_concern : Bool
  pub suspected_account_takeover : Bool
  pub payment_or_security_change : Bool
  pub caller_distress_or_confusion : Bool
  pub unsupported_specialist_request : Bool
  pub person_requested_human : Bool

pub record HandoffDecision : Type 0 where
  pub required : Bool
  pub queue : CallQueue
  pub warm_context_required : Bool
  pub callback_deferral_allowed : Bool

abbrev concerns_account : HandoffInput → Bool
concerns_account i = i.suspected_account_takeover || i.payment_or_security_change

unfoldable human_handoff_decision : HandoffInput → HandoffDecision
human_handoff_decision i =
    let required =
      i.person_requested_human
      || less_eq (natural 3) i.recognition_failure_count
      || i.low_confidence_address
      || i.low_confidence_passenger_identity
      || i.safety_concern
      || i.safeguarding_concern
      || concerns_account i
      || i.caller_distress_or_confusion
      || i.unsupported_specialist_request in
    record {
      required = required;
      queue =
          if i.safety_concern
          then safety
          else if i.safeguarding_concern
          then school_safeguarding
          else if concerns_account i
          then account_security
          else if i.low_confidence_address || i.low_confidence_passenger_identity
          then telephone_booking
          else routine_support;
      warm_context_required = required;
      callback_deferral_allowed = not i.safety_concern && not i.safeguarding_concern;
    }

pub data PaymentProviderStatus : Type 0 where
  not_started succeeded failed status_unknown : PaymentProviderStatus

pub record TelephonePaymentInput : Type 0 where
  pub raw_card_details_captured : Bool
  pub secure_payment_link_available : Bool
  pub tokenised_saved_method_available : Bool
  pub pci_compliant_ivr_available : Bool
  pub provider_status : PaymentProviderStatus
  pub blind_repeat_collection_requested : Bool

pub data PaymentRoute : Type 0 where
  secure_payment_link tokenised_saved_method pci_ivr unavailable : PaymentRoute
  reconciliation_required : PaymentRoute

pub record TelephonePaymentDecision : Type 0 where
  pub route : PaymentRoute
  pub allowed : Bool
  pub raw_card_details_retained : Bool
  pub blind_repeat_collection_allowed : Bool

abbrev payment_decision : PaymentRoute → Bool → TelephonePaymentDecision
payment_decision route allowed = record {
  route = route;
  allowed = allowed;
  raw_card_details_retained = false;
  blind_repeat_collection_allowed = false;
}

abbrev is_status_unknown : PaymentProviderStatus → Bool
is_status_unknown status_unknown = true
is_status_unknown _ = false

unfoldable telephone_payment_decision : TelephonePaymentInput → TelephonePaymentDecision
telephone_payment_decision i =
    if i.raw_card_details_captured || i.blind_repeat_collection_requested
    then payment_decision unavailable false
    else if is_status_unknown i.provider_status
    then payment_decision reconciliation_required false
    else if i.secure_payment_link_available
    then payment_decision secure_payment_link true
    else if i.tokenised_saved_method_available
    then payment_decision tokenised_saved_method true
    else if i.pci_compliant_ivr_available
    then payment_decision pci_ivr true
    else payment_decision unavailable false

pub record CallResumeInput : Type 0 where
  pub pending_interaction_found : Bool
  pub confirmed_fields_preserved : Bool
  pub idempotency_key_reused : Bool
  pub existing_booking_id : Option Text

pub record CallResumeDecision : Type 0 where
  pub resume_allowed : Bool
  pub create_new_booking_allowed : Bool
  pub duplicate_booking_risk_accepted : Bool

-- Null and the empty text are falsy.
abbrev has_booking : Option Text → Bool
has_booking none = false
has_booking (some id) = not (is_empty id)

unfoldable call_resume_decision : CallResumeInput → CallResumeDecision
call_resume_decision i = record {
  resume_allowed =
      i.pending_interaction_found && (i.confirmed_fields_preserved && i.idempotency_key_reused);
  create_new_booking_allowed =
      not (has_booking i.existing_booking_id) && not i.pending_interaction_found;
  duplicate_booking_risk_accepted = false;
}

pub record RecordingUse : Type 0 where
  pub recording_purpose_defined : Bool
  pub legal_basis_defined : Bool
  pub retention_policy_defined : Bool
  pub access_policy_defined : Bool
  pub transcript_treated_as_authoritative : Bool
  pub unrelated_model_training_requested : Bool

unfoldable recording_and_transcript_may_be_used : RecordingUse → Bool
recording_and_transcript_may_be_used i =
    i.recording_purpose_defined
    && i.legal_basis_defined
    && i.retention_policy_defined
    && i.access_policy_defined
    && not i.transcript_treated_as_authoritative
    && not i.unrelated_model_training_requested
