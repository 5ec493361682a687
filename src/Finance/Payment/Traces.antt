-- ===== src/Finance/Payment/Traces.antt =====
-- What holds along the life of a payment (finance.ts).
use dazat_mobility.Base.{
  Bool, true, false, ◌&&◌, not, List, [], ◌∷◌, ◌≡◌, refl, ◌⊎◌, inl, inr, arith, every, some_of,
  Bool-cases,
}
use dazat_mobility.Finance.Payment.{
  PaymentStatus, created, authorised, captured, partially_refunded, refunded, failed, voided,
  expired, status_unknown, disputed, chargeback, can_transition_payment_status,
  can_blind_retry_payment_action,
}

unfoldable pub payment_chain_ok : PaymentStatus → List PaymentStatus → Bool
payment_chain_ok s [] = true
payment_chain_ok s (t ∷ ts) = can_transition_payment_status s t && payment_chain_ok t ts

-- Funds have been captured.
abbrev pub is_settled : PaymentStatus → Bool
is_settled captured = true
is_settled partially_refunded = true
is_settled refunded = true
is_settled disputed = true
is_settled chargeback = true
is_settled _ = false

abbrev is_final : PaymentStatus → Bool
is_final failed = true
is_final voided = true
is_final expired = true
is_final chargeback = true
is_final _ = false

-- The outcome at the provider is decided, or is not known.
abbrev pub is_decided : PaymentStatus → Bool
is_decided authorised = true
is_decided status_unknown = true
is_decided _ = false

settled_step :
    (s t : PaymentStatus)
    → can_transition_payment_status s t ≡ true
    → is_settled s ≡ true
    → is_settled t ≡ true
unfolding can_transition_payment_status
settled_step created t h k = cc
settled_step _ t h k = ground arith

-- Once captured, a payment stays captured, refunded, disputed or charged back: on no chain of
-- allowed transitions does it fail, is it voided, or can its action be retried blindly.
pub settled_stays :
    (s : PaymentStatus) (path : List PaymentStatus)
    → is_settled s ≡ true
    → payment_chain_ok s path ≡ true
    → every (λ t. is_settled t && not (can_blind_retry_payment_action t)) path ≡ true
unfolding payment_chain_ok can_blind_retry_payment_action
settled_stays s [] h c = refl
settled_stays s (t ∷ ts) h c = ground (arith, settled_step s t, settled_stays t ts)

decided_step :
    (s t : PaymentStatus)
    → can_transition_payment_status s t ≡ true
    → is_settled t ≡ true
    → (is_settled s ≡ true) ⊎ (is_decided s ≡ true)
unfolding can_transition_payment_status
decided_step created t h k = ground arith
decided_step _ t h k = ground arith

-- By these transitions a payment that is not captured yet is captured only over AUTHORISED or STATUS_UNKNOWN.
pub capture_needs_decision :
    (s : PaymentStatus) (path : List PaymentStatus)
    → is_settled s ≡ false
    → payment_chain_ok s path ≡ true
    → some_of is_settled path ≡ true
    → some_of is_decided (s ∷ path) ≡ true
unfolding payment_chain_ok
capture_needs_decision s [] u c h = cc
capture_needs_decision s (t ∷ ts) u c h = elim (Bool-cases (is_settled t)) [
  | inl yes_ ↦ ground (arith, decided_step s t)
  | inr still ↦ ground (arith, capture_needs_decision t ts)
]
