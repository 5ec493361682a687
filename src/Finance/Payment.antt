-- ===== src/Finance/Payment.antt =====
-- packages/domain/src/finance.ts: the statuses of a payment.
pub mod Traces
use dazat_mobility.Base.{Bool, true, false, List, [], ◌∷◌, includes, ◌||◌}
use dazat_mobility.Base.Results.{Result, require}

pub data PaymentStatus : Type 0 where
  created processing requires_action authorised captured partially_refunded : PaymentStatus
  refunded failed voided expired status_unknown disputed chargeback : PaymentStatus

unfoldable pub PaymentStatus-discrete : Discrete PaymentStatus
PaymentStatus-discrete = hlevel

unfoldable payment_transitions : PaymentStatus → List PaymentStatus
payment_transitions created = processing ∷ expired ∷ voided ∷ []
payment_transitions processing = requires_action ∷ authorised ∷ failed ∷ status_unknown ∷ []
payment_transitions requires_action =
    processing ∷ authorised ∷ failed ∷ expired ∷ status_unknown ∷ []
payment_transitions authorised = captured ∷ voided ∷ status_unknown ∷ []
payment_transitions captured = partially_refunded ∷ refunded ∷ disputed ∷ chargeback ∷ []
payment_transitions partially_refunded = partially_refunded ∷ refunded ∷ disputed ∷ chargeback ∷ []
payment_transitions refunded = disputed ∷ chargeback ∷ []
payment_transitions failed = []
payment_transitions voided = []
payment_transitions expired = []
payment_transitions status_unknown = requires_action ∷ authorised ∷ captured ∷ failed ∷ voided ∷ []
payment_transitions disputed = captured ∷ partially_refunded ∷ refunded ∷ chargeback ∷ []
payment_transitions chargeback = []

unfoldable pub can_transition_payment_status : PaymentStatus → PaymentStatus → Bool
unfolding payment_transitions PaymentStatus-discrete
can_transition_payment_status from to =
    includes PaymentStatus-discrete (payment_transitions from) to

pub data PaymentError : Type 0 where
  invalid_payment_transition : PaymentStatus → PaymentStatus → PaymentError

unfoldable assert_payment_status_transition :
    PaymentStatus → PaymentStatus → Result PaymentError (Unit {0})
unfolding can_transition_payment_status
assert_payment_status_transition from to =
    require (can_transition_payment_status from to) (invalid_payment_transition from to)

pub record ProviderTimeoutDecision : Type 0 where
  pub status : PaymentStatus
  pub reconciliation_required : Bool
  pub blind_retry_allowed : Bool

abbrev payment_provider_timeout_decision : ProviderTimeoutDecision
payment_provider_timeout_decision = record {
  status = status_unknown;
  reconciliation_required = true;
  blind_retry_allowed = false;
}

unfoldable pub can_blind_retry_payment_action : PaymentStatus → Bool
can_blind_retry_payment_action created = true
can_blind_retry_payment_action requires_action = true
can_blind_retry_payment_action _ = false
