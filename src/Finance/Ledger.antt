-- ===== src/Finance/Ledger.antt =====
-- packages/domain/src/finance.ts: the double-entry ledger. `upper` stands for `toUpperCase`.
pub mod Laws
use dazat_mobility.Base.{
  ℕ, ◌+◌, Bool, true, false, ◌&&◌, not, List, [], ◌∷◌, map, Number, natural, less, less_eq,
  is_safe_integer, to_natural, ◌==◌, length, ltb,
}
use dazat_mobility.Base.Texts.{Text, trim, has_content, text_eq}
use dazat_mobility.Base.Results.{Result, ok, err, require, ◌>>=◌, ◌>>◌}
use dazat_mobility.Pricing.{PricingError, assert_currency_code}

pub data LedgerDirection : Type 0 where
  debit credit : LedgerDirection

pub record LedgerEntryInput : Type 0 where
  pub account_id : Text
  pub direction : LedgerDirection
  pub amount_minor : Number
  pub currency : Text

pub record LedgerBalanceDecision : Type 0 where
  pub balanced : Bool
  pub currency : Text
  pub debit_minor : ℕ
  pub credit_minor : ℕ

pub data LedgerError : Type 0 where
  too_few_entries account_required amount_not_positive mixed_currencies : LedgerError
  currency : PricingError → LedgerError
  not_balanced : LedgerError

abbrev pub from_pricing : {A : Type 0} → Result PricingError A → Result LedgerError A
from_pricing (ok a) = ok a
from_pricing (err e) = err (currency e)

-- The sums of the loop.
pub record Totals : Type 0 where
  pub debits : ℕ
  pub credits : ℕ

unfoldable pub add_amount : LedgerDirection → ℕ → Totals → Totals
add_amount debit n t = record t { debits = t.debits + n }
add_amount credit n t = record t { credits = t.credits + n }

-- One round of the loop.
unfoldable pub add_entry :
    (Text → Text) → Text → LedgerEntryInput → Totals → Result LedgerError Totals
unfolding add_amount
add_entry upper code e t = do
  require (has_content e.account_id) account_required
  require (is_safe_integer e.amount_minor && not (less_eq e.amount_minor (natural 0)))
      amount_not_positive
  require (text_eq (upper e.currency) code) mixed_currencies
  ok (add_amount e.direction (to_natural e.amount_minor) t)

unfoldable pub add_entries :
    (Text → Text) → Text → List LedgerEntryInput → Totals → Result LedgerError Totals
add_entries upper code [] t = ok t
add_entries upper code (e ∷ es) t = add_entry upper code e t >>= add_entries upper code es

abbrev pub decision : Text → Totals → LedgerBalanceDecision
decision code t = record {
  balanced = t.debits == t.credits;
  currency = code;
  debit_minor = t.debits;
  credit_minor = t.credits;
}

unfoldable pub evaluate_balanced_ledger :
    (Text → Text) → List LedgerEntryInput → Result LedgerError LedgerBalanceDecision
evaluate_balanced_ledger upper [] = err too_few_entries
evaluate_balanced_ledger upper (e ∷ es) = do
  require (ltb 1 (length (e ∷ es))) too_few_entries
  let code = upper e.currency
  from_pricing (assert_currency_code upper code)
  t ← add_entries upper code (e ∷ es) (record { debits = 0; credits = 0 })
  ok (decision code t)

unfoldable pub assert_balanced_ledger :
    (Text → Text) → List LedgerEntryInput → Result LedgerError (Unit {0})
unfolding evaluate_balanced_ledger
assert_balanced_ledger upper entries = do
  d ← evaluate_balanced_ledger upper entries
  require d.balanced not_balanced

abbrev pub opposite : LedgerDirection → LedgerDirection
opposite debit = credit
opposite credit = debit

abbrev pub reverse_entry : LedgerEntryInput → LedgerEntryInput
reverse_entry e = record e { direction = opposite e.direction }

unfoldable pub reverse_ledger_entries : List LedgerEntryInput → List LedgerEntryInput
reverse_ledger_entries entries = map reverse_entry entries
