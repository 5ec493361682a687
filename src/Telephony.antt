-- ===== src/Telephony.antt =====
-- packages/domain/src/telephony-voice.ts: callers, the dialogue of the voice assistant and bookings
-- by telephone.
pub mod Handoff
pub mod Laws
use dazat_mobility.Base.{
  ℕ, Bool, true, false, ◌&&◌, ◌||◌, not, Option, none, some, List, [], ◌∷◌, ◌++◌, map, includes,
  same, is_empty, some_of, collect, Number, ratio, pos, natural, less, less_eq, is_finite,
  is_safe_integer, if◌then◌else◌,
}
use dazat_mobility.Base.Results.{Result, ok, err, require, ◌>>=◌, ◌>>◌}

pub data CallerRole : Type 0 where
  booker passenger payer guardian carer school_contact : CallerRole
  business_contact driver rescue_provider unknown : CallerRole

pub data CallerAction : Type 0 where
  create_booking read_booking_status change_booking cancel_booking : CallerAction
  request_support report_safety account_recovery change_payout : CallerAction
  change_stored_payment read_sensitive_profile : CallerAction

pub data CallerVerificationMethod : Type 0 where
  caller_id_hint verified_contact_challenge in_app_step_up : CallerVerificationMethod
  operator_evidence authorised_guardian_record : CallerVerificationMethod
  organisation_authority verified_supplier_contact : CallerVerificationMethod

pub data CallQueue : Type 0 where
  safety school_safeguarding active_journey breakdown telephone_booking : CallQueue
  accessibility_assisted driver payment account_security routine_support : CallQueue

pub data VoiceDialogueState : Type 0 where
  intent_detected required_fields_collection readback confirmation : VoiceDialogueState
  backend_command result human_handoff abandoned : VoiceDialogueState

unfoldable pub VoiceDialogueState-discrete : Discrete VoiceDialogueState
VoiceDialogueState-discrete = hlevel

pub data VoiceCriticalField : Type 0 where
  pickup destination date_time passenger_identity : VoiceCriticalField
  accessibility_requirements final_price : VoiceCriticalField

unfoldable pub VoiceCriticalField-discrete : Discrete VoiceCriticalField
VoiceCriticalField-discrete = hlevel

-- VOICE_CRITICAL_FIELDS
abbrev voice_critical_fields : List VoiceCriticalField
voice_critical_fields =
    pickup ∷ destination ∷ date_time ∷ passenger_identity ∷ accessibility_requirements ∷ final_price
    ∷ []

-- highRiskActions.includes(action)
abbrev is_high_risk : CallerAction → Bool
is_high_risk account_recovery = true
is_high_risk change_payout = true
is_high_risk change_stored_payment = true
is_high_risk read_sensitive_profile = true
is_high_risk _ = false

-- independentVerificationMethods.includes(method)
abbrev is_independent : CallerVerificationMethod → Bool
is_independent caller_id_hint = false
is_independent _ = true

pub record CallerAuthorityInput : Type 0 where
  pub claimed_role : CallerRole
  pub requested_action : CallerAction
  pub verification_methods : List CallerVerificationMethod
  pub confidence : Number
  pub step_up_completed : Bool

pub data CallerOutcome : Type 0 where
  verified_scoped clarification_required human_handoff_required : CallerOutcome
  high_risk_voice_prohibited : CallerOutcome

pub record CallerAuthority : Type 0 where
  pub outcome : CallerOutcome
  pub action_allowed : Bool
  pub caller_id_treated_as_identity_proof : Bool
  pub disclosure_must_remain_scoped : Bool

pub data TelephonyError : Type 0 where
  confidence_out_of_range failure_count_invalid : TelephonyError

-- The fraction of the source's literals.
abbrev one_half : Number
one_half = ratio (pos 1) 1

abbrev three_quarters : Number
three_quarters = ratio (pos 3) 3

-- Number.isFinite(c) && c >= 0 && c <= 1
abbrev is_confidence : Number → Bool
is_confidence c = is_finite c && (not (less c (natural 0)) && not (less (natural 1) c))

abbrev caller_authority : CallerOutcome → Bool → CallerAuthority
caller_authority outcome allowed = record {
  outcome = outcome;
  action_allowed = allowed;
  caller_id_treated_as_identity_proof = false;
  disclosure_must_remain_scoped = true;
}

abbrev is_unknown : CallerRole → Bool
is_unknown unknown = true
is_unknown _ = false

unfoldable assess_caller_authority : CallerAuthorityInput → Result TelephonyError CallerAuthority
assess_caller_authority i =
    require (is_confidence i.confidence) confidence_out_of_range
    >> ok (
        if is_unknown i.claimed_role || less i.confidence one_half
        then caller_authority clarification_required false
        else if not (some_of is_independent i.verification_methods)
        then caller_authority human_handoff_required false
        else if is_high_risk i.requested_action && not i.step_up_completed
        then caller_authority high_risk_voice_prohibited false
        else caller_authority verified_scoped true)

unfoldable voice_transitions : VoiceDialogueState → List VoiceDialogueState
voice_transitions intent_detected = required_fields_collection ∷ human_handoff ∷ abandoned ∷ []
voice_transitions required_fields_collection = readback ∷ human_handoff ∷ abandoned ∷ []
voice_transitions readback =
    confirmation ∷ required_fields_collection ∷ human_handoff ∷ abandoned ∷ []
voice_transitions confirmation =
    backend_command ∷ required_fields_collection ∷ human_handoff ∷ abandoned ∷ []
voice_transitions backend_command = result ∷ human_handoff ∷ []
voice_transitions _ = []

unfoldable pub can_transition_voice_dialogue : VoiceDialogueState → VoiceDialogueState → Bool
unfolding voice_transitions VoiceDialogueState-discrete
can_transition_voice_dialogue from to =
    includes VoiceDialogueState-discrete (voice_transitions from) to

-- A field is one of the critical ones or another text.
pub record VoiceFieldInput : Type 0 where
  pub field : Option VoiceCriticalField
  pub confidence : Number
  pub explicit_readback_completed : Bool
  pub caller_confirmed : Bool
  pub failed_recognition_count : Number

pub data VoiceNextAction : Type 0 where
  accept_capture targeted_clarification explicit_readback human_handoff : VoiceNextAction

pub record VoiceFieldDecision : Type 0 where
  pub usable_for_commitment : Bool
  pub next_action : VoiceNextAction
  pub transcript_treated_as_authority : Bool

abbrev field_decision : Bool → VoiceNextAction → VoiceFieldDecision
field_decision usable action = record {
  usable_for_commitment = usable;
  next_action = action;
  transcript_treated_as_authority = false;
}

abbrev is_critical : Option VoiceCriticalField → Bool
is_critical none = false
is_critical (some _) = true

unfoldable evaluate_voice_field_capture : VoiceFieldInput → Result TelephonyError VoiceFieldDecision
evaluate_voice_field_capture i =
    require (is_confidence i.confidence) confidence_out_of_range
    >> (require
          (is_safe_integer i.failed_recognition_count
            && not (less i.failed_recognition_count (natural 0)))
          failure_count_invalid
        >> ok (
            if less_eq (natural 3) i.failed_recognition_count
            then field_decision false VoiceNextAction.human_handoff
            else if less i.confidence three_quarters
            then field_decision false targeted_clarification
            else if is_critical i.field
                && (not i.explicit_readback_completed || not i.caller_confirmed)
            then field_decision false explicit_readback
            else field_decision true accept_capture))

pub record TelephoneBookingInput : Type 0 where
  pub canonical_booking_engine_used : Bool
  pub pickup_explicitly_chosen : Bool
  pub ambiguous_location_remaining : Bool
  pub critical_fields_confirmed : List VoiceCriticalField
  pub booker_passenger_payer_separated : Bool
  pub quote_terms_confirmed : Bool
  pub capacity_confirmed : Bool
  pub diagnosis_stored_as_accessibility_requirement : Bool

pub data TelephoneBlocker : Type 0 where
  canonical_booking_engine_required pickup_confirmation_required : TelephoneBlocker
  location_clarification_required : TelephoneBlocker
  field_confirmation_required : VoiceCriticalField → TelephoneBlocker
  party_role_separation_required quote_terms_confirmation_required : TelephoneBlocker
  capacity_confirmation_required operational_accessibility_requirements_only : TelephoneBlocker

pub record TelephoneBookingDecision : Type 0 where
  pub allowed : Bool
  pub blockers : List TelephoneBlocker
  pub separate_reduced_function_system_used : Bool

-- The row of a critical field.
unfoldable field_row : List VoiceCriticalField → VoiceCriticalField → Bool × TelephoneBlocker
unfolding VoiceCriticalField-discrete
field_row confirmed field =
    (not (includes VoiceCriticalField-discrete confirmed field), field_confirmation_required field)

unfoldable telephone_rows : TelephoneBookingInput → List (Bool × TelephoneBlocker)
unfolding field_row
telephone_rows i =
    (not i.canonical_booking_engine_used, canonical_booking_engine_required)
    ∷ (not i.pickup_explicitly_chosen, pickup_confirmation_required)
    ∷ (i.ambiguous_location_remaining, location_clarification_required)
    ∷ (map (field_row i.critical_fields_confirmed) voice_critical_fields
        ++ (not i.booker_passenger_payer_separated, party_role_separation_required)
          ∷ (not i.quote_terms_confirmed, quote_terms_confirmation_required)
          ∷ (not i.capacity_confirmed, capacity_confirmation_required)
          ∷ (
            i.diagnosis_stored_as_accessibility_requirement,
            operational_accessibility_requirements_only,
          )
          ∷ [])

unfoldable telephone_booking_may_commit : TelephoneBookingInput → TelephoneBookingDecision
unfolding telephone_rows
telephone_booking_may_commit i =
    let blockers : List TelephoneBlocker = collect (telephone_rows i) in
    record {
      allowed = is_empty blockers;
      blockers = blockers;
      separate_reduced_function_system_used = false;
    }
