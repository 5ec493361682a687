-- ===== src/Pricing.antt =====
-- packages/domain/src/pricing.ts and packages/domain/src/money.ts.
-- `upper` stands for `String.prototype.toUpperCase`, whose Unicode tables are not in the repository.
use dazat_mobility.Base.{
  Bool, true, false, ◌&&◌, not, less, is_safe_integer, Number, natural, before, Date,
}
use dazat_mobility.Base.Texts.{Text, trim, is_currency_code}
use dazat_mobility.Base.Results.{Result, ok, require, ◌>>◌}

pub data QuoteStatus : Type 0 where
  offered accepted expired superseded cancelled : QuoteStatus

pub data PricingError : Type 0 where
  invalid_currency_code invalid_amount unsafe_minor_units : PricingError

unfoldable pub assert_currency_code : (Text → Text) → Text → Result PricingError Text
unfolding trim is_currency_code
assert_currency_code upper currency = do
  let value = upper (trim currency)
  require (is_currency_code value) invalid_currency_code
  ok value

unfoldable pub assert_money_minor_units : Number → Result PricingError Number
assert_money_minor_units amount_minor = do
  require (is_safe_integer amount_minor && not (less amount_minor (natural 0))) invalid_amount
  ok amount_minor

abbrev pub is_offered : QuoteStatus → Bool
is_offered offered = true
is_offered _ = false

unfoldable pub is_quote_usable : QuoteStatus → Date → Date → Bool
is_quote_usable status expires_at now = is_offered status && before now expires_at

pub record Money : Type 0 where
  pub minor_units : Number
  pub currency : Text

unfoldable money : Number → Text → Result PricingError Money
unfolding is_currency_code
money minor_units currency = do
  require (is_safe_integer minor_units) unsafe_minor_units
  require (is_currency_code currency) invalid_currency_code
  ok (record { minor_units = minor_units; currency = currency })
