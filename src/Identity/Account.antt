-- ===== src/Identity/Account.antt =====
-- packages/domain/src/identity.ts: accounts, recovery and sessions; packages/domain/src/authentication.ts:
-- the verification of a contact.
use dazat_mobility.Base.{
  ℕ, Bool, true, false, ◌&&◌, List, [], ◌∷◌, includes, Date, before, not_after, ltb,
}

pub data AccountStatus : Type 0 where
  pending active limited suspended closed : AccountStatus

unfoldable pub AccountStatus-discrete : Discrete AccountStatus
AccountStatus-discrete = hlevel

pub data SessionStatus : Type 0 where
  active step_up_required revoked expired : SessionStatus

pub data RecoveryState : Type 0 where
  started identity_assessment contact_assessment step_up_required review_required : RecoveryState
  recovery_approved security_reset recovery_complete declined abandoned : RecoveryState
  locked_for_review : RecoveryState

unfoldable pub RecoveryState-discrete : Discrete RecoveryState
RecoveryState-discrete = hlevel

unfoldable recovery_transitions : RecoveryState → List RecoveryState
recovery_transitions started = identity_assessment ∷ abandoned ∷ locked_for_review ∷ []
recovery_transitions identity_assessment =
    contact_assessment ∷ RecoveryState.step_up_required ∷ review_required ∷ declined
    ∷ locked_for_review ∷ []
recovery_transitions contact_assessment =
    RecoveryState.step_up_required ∷ review_required ∷ recovery_approved ∷ declined
    ∷ locked_for_review ∷ []
recovery_transitions RecoveryState.step_up_required =
    recovery_approved ∷ review_required ∷ declined ∷ locked_for_review ∷ []
recovery_transitions review_required = recovery_approved ∷ declined ∷ locked_for_review ∷ []
recovery_transitions recovery_approved = security_reset ∷ []
recovery_transitions security_reset = recovery_complete ∷ locked_for_review ∷ []
recovery_transitions recovery_complete = []
recovery_transitions declined = []
recovery_transitions abandoned = []
recovery_transitions locked_for_review = identity_assessment ∷ review_required ∷ declined ∷ []

unfoldable pub can_transition_recovery_state : RecoveryState → RecoveryState → Bool
unfolding recovery_transitions RecoveryState-discrete
can_transition_recovery_state from to =
    includes RecoveryState-discrete (recovery_transitions from) to

abbrev session_is_active : SessionStatus → Bool
session_is_active SessionStatus.active = true
session_is_active _ = false

unfoldable is_session_authoritative : SessionStatus → Date → Date → Bool
is_session_authoritative status expires_at now = session_is_active status && before now expires_at

pub data AccountCapability : Type 0 where
  view_profile edit_profile book_ride active_journey safety support : AccountCapability
  view_financial_history prepare_payment manage_driver_application : AccountCapability
  change_security change_payout : AccountCapability

unfoldable pub AccountCapability-discrete : Discrete AccountCapability
AccountCapability-discrete = hlevel

unfoldable account_transitions : AccountStatus → List AccountStatus
account_transitions pending = AccountStatus.active ∷ limited ∷ suspended ∷ closed ∷ []
account_transitions AccountStatus.active = limited ∷ suspended ∷ closed ∷ []
account_transitions limited = AccountStatus.active ∷ suspended ∷ closed ∷ []
account_transitions suspended = AccountStatus.active ∷ limited ∷ closed ∷ []
account_transitions closed = []

unfoldable can_transition_account_status : AccountStatus → AccountStatus → Bool
unfolding account_transitions AccountStatus-discrete
can_transition_account_status from to =
    includes AccountStatus-discrete (account_transitions from) to

unfoldable pub can_use_account_capability : AccountStatus → AccountCapability → Bool
unfolding AccountCapability-discrete
can_use_account_capability closed c = includes AccountCapability-discrete (support ∷ []) c
can_use_account_capability suspended c = includes AccountCapability-discrete (support ∷ []) c
can_use_account_capability pending c =
    includes AccountCapability-discrete (support ∷ change_security ∷ []) c
can_use_account_capability AccountStatus.active c = true
can_use_account_capability limited c =
    includes AccountCapability-discrete
      (view_profile ∷ book_ride ∷ active_journey ∷ safety ∷ support ∷ view_financial_history ∷ []) c

pub data ContactVerificationStatus : Type 0 where
  pending verified failed expired revoked : ContactVerificationStatus

abbrev verification_is_pending : ContactVerificationStatus → Bool
verification_is_pending ContactVerificationStatus.pending = true
verification_is_pending _ = false

unfoldable pub can_attempt_contact_verification :
    ContactVerificationStatus → Date → ℕ → ℕ → Date → Bool
can_attempt_contact_verification status expires_at attempt_count max_attempts now =
    verification_is_pending status && before now expires_at && ltb attempt_count max_attempts

unfoldable pub should_expire_contact_verification : ContactVerificationStatus → Date → Date → Bool
should_expire_contact_verification status expires_at now =
    verification_is_pending status && not_after expires_at now

pub data ProfileKind : Type 0 where
  rider driver both : ProfileKind

unfoldable profile_kinds : ProfileKind → List ProfileKind
profile_kinds both = rider ∷ driver ∷ []
profile_kinds rider = rider ∷ []
profile_kinds driver = driver ∷ []
