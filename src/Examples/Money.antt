-- ===== src/Examples/Money.antt =====
-- Payments, ledgers and payloads at concrete inputs.
use dazat_mobility.Base.{
  true, false, ◌&&◌, not, List, [], ◌∷◌, ◌++◌, ◌≡◌, refl, ◌↔◌, every, some_of, natural,
}
use dazat_mobility.Base.Texts.{units, trim, has_content, text_eq, is_currency_code}
use dazat_mobility.Base.Results.{ok, err}
use dazat_mobility.Pricing.{assert_currency_code}
use dazat_mobility.Finance.Payment.{
  created, processing, authorised, captured, partially_refunded, refunded,
  can_transition_payment_status, can_blind_retry_payment_action,
}
use dazat_mobility.Finance.Payment.Traces.{
  payment_chain_ok, is_settled, is_decided, settled_stays, capture_needs_decision,
}
use dazat_mobility.Finance.Ledger.{
  LedgerEntryInput, debit, credit, LedgerBalanceDecision, evaluate_balanced_ledger,
  assert_balanced_ledger, reverse_ledger_entries, add_entries, add_entry, add_amount,
}
use dazat_mobility.Finance.Ledger.Laws.{
  total, evaluate_totals, balanced_with_reversal, assert_reversed,
}
use dazat_mobility.Finance.Secrets.{
  Payload, scalar, object, array, field, end, item, none_left, assert_no_raw_payment_secrets,
  is_forbidden_key, in_object, in_array, beside, below, first, key_itself, assert_no_raw_iff,
  PathStep,
}

settled_stays_example :
    every
      (λ t. is_settled t && not (can_blind_retry_payment_action t))
      (partially_refunded ∷ refunded ∷ [])
    ≡ true
unfolding payment_chain_ok can_transition_payment_status
settled_stays_example = settled_stays captured (partially_refunded ∷ refunded ∷ []) refl refl

capture_needs_decision_example :
    some_of is_decided (created ∷ processing ∷ authorised ∷ captured ∷ []) ≡ true
unfolding payment_chain_ok can_transition_payment_status
capture_needs_decision_example =
    capture_needs_decision created (processing ∷ authorised ∷ captured ∷ []) refl refl refl

abbrev fare : List LedgerEntryInput
fare =
    record {
      account_id = units "rider";
      direction = debit;
      amount_minor = natural 2_500;
      currency = units "NGN";
    }
    ∷ record {
      account_id = units "driver";
      direction = credit;
      amount_minor = natural 2_000;
      currency = units "NGN";
    }
    ∷ record {
      account_id = units "platform";
      direction = credit;
      amount_minor = natural 400;
      currency = units "NGN";
    }
    ∷ []

-- The fare is 100 short.
abbrev fare_decision : LedgerBalanceDecision
fare_decision = record {
  balanced = false;
  currency = units "NGN";
  debit_minor = 2_500;
  credit_minor = 2_400;
}

evaluate_totals_example :
    (2_500 ≡ total debit fare)
    × (2_400 ≡ total credit fare)
    × ((false ≡ true) ↔ (total debit fare ≡ total credit fare))
unfolding evaluate_balanced_ledger add_entries add_entry add_amount assert_currency_code has_content
    trim text_eq is_currency_code
evaluate_totals_example = evaluate_totals (λ s. s) fare fare_decision refl

balanced_with_reversal_example :
    assert_balanced_ledger (λ s. s) (fare ++ reverse_ledger_entries fare) ≡ ok tt
unfolding evaluate_balanced_ledger add_entries add_entry add_amount assert_currency_code has_content
    trim text_eq is_currency_code
balanced_with_reversal_example = balanced_with_reversal (λ s. s) fare fare_decision refl

assert_reversed_example :
    assert_balanced_ledger (λ s. s) (reverse_ledger_entries fare)
    ≡ assert_balanced_ledger (λ s. s) fare
assert_reversed_example = assert_reversed (λ s. s) fare

-- { amount, items: [{ "c_v-v": ... }] }
abbrev leaky : Payload
leaky = object (
    field (units "amount") scalar (
      field (units "items") (array (item (object (field (units "c_v-v") scalar end)) none_left))
        end))

assert_no_raw_iff_example :
    (p : List PathStep) × (assert_no_raw_payment_secrets (λ s. s) leaky [] ≡ err p)
unfolding is_forbidden_key text_eq
assert_no_raw_iff_example =
    (assert_no_raw_iff (λ s. s) leaky []).1
      (in_object (beside (below (in_array (first (in_object (key_itself refl)))))))
