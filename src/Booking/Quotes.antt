-- ===== src/Booking/Quotes.antt =====
-- services/api/src/modules/booking/booking-service.ts: quoting a booking and confirming it. The
-- pricing port is the parameter `pricing`, `now` the time of the request.
use dazat_mobility.Base.{
  ℕ, suc, Bool, true, false, ◌&&◌, Option, none, some, List, [], ◌∷◌, ◌++◌, ◌==◌, if◌then◌else◌,
  Number, Date, not_after, ◌⊎◌, inl, inr,
}
use dazat_mobility.Base.Texts.{Text, text_eq, units}
use dazat_mobility.Base.Results.{Result, ok, err, require, ◌>>◌}
use dazat_mobility.Pricing.{QuoteStatus, is_offered, superseded}
use dazat_mobility.Booking.Status.{BookingStatus, draft, awaiting_confirmation}
use dazat_mobility.Booking.Store.{
  BookingSummary, BookingQuoteResult, FareAgreement, ConfirmBookingResult, quote_created, QuoteRow,
  Response, quoted, confirmed, quote_made, quote_accepted, CommandRow, Db, Principal, ServiceError,
  forbidden, conflict, invalid_timestamp, Statements, Service, transaction, update_where,
}
use dazat_mobility.Booking.Transition.{is_booker, read_booking_summary, transition_booking}

pub record PricedQuote : Type 0 where
  pub amount_minor : Number
  pub currency : Text
  pub policy_version : Text
  pub expires_at : Date
  pub non_commercial_development_fixture : Bool

-- createQuote of the pricing port, which may throw: of the booking, its region and its schedule.
abbrev pub PricingPort : Type 0
PricingPort = ℕ → Text → Option Date → Result ServiceError PricedQuote

abbrev pub quoted_of : Response → Option BookingQuoteResult
quoted_of (quoted r) = some r
quoted_of _ = none

abbrev pub confirmed_of : Response → Option ConfirmBookingResult
confirmed_of (confirmed r) = some r
confirmed_of _ = none

abbrev pub quote_made_of : Response → Option ℕ
quote_made_of (quote_made q) = some q
quote_made_of _ = none

abbrev pub quote_accepted_of : Response → Option FareAgreement
quote_accepted_of (quote_accepted f) = some f
quote_accepted_of _ = none

-- The response of a command type, in the first row with a test.
abbrev pub find_response {ℓ} :
    {A : Type ℓ} → (Response → Option A) → (CommandRow → Bool) → List CommandRow → Option A
find_response pick test [] = none
find_response pick test (c ∷ cs) =
    let rest = find_response pick test cs in
    if test c then elim (pick c.response) [ some a ↦ some a | none ↦ rest ] else rest

abbrev pub with_key : Text → CommandRow → Bool
with_key key c = text_eq c.idempotency_key key

abbrev pub with_key_of : Text → ℕ → CommandRow → Bool
with_key_of key booking c = text_eq c.idempotency_key key && c.booking_id == booking

abbrev pub add_command : Text → ℕ → Response → Db → Db
add_command key booking response db = record db {
  commands =
      db.commands
      ++ record { idempotency_key = key; booking_id = booking; response = response } ∷ [];
}

-- ON CONFLICT (command_type, idempotency_key) DO NOTHING
abbrev pub add_if_new {ℓ} : {A : Type ℓ} → Option A → Text → ℕ → Response → Db → Db
add_if_new none key booking response db = add_command key booking response db
add_if_new (some a) key booking response db = db

abbrev supersede : QuoteRow → QuoteRow
supersede q = record q { status = superseded }

-- The offered quotes of the booking are superseded and the priced one is inserted.
unfoldable pub insert_quote : ℕ → PricedQuote → Text → ℕ → Statements ℕ
insert_quote booking priced key correlation db = do
  require (not_after priced.expires_at priced.expires_at) invalid_timestamp
  let command = db.next_id
  let quote = suc db.next_id
  let stored = record db {
    next_id = suc quote;
    quotes =
        update_where (λ q. q.booking_id == booking && is_offered q.status) supersede db.quotes
        ++ record {
          id = quote;
          booking_id = booking;
          status = QuoteStatus.offered;
          amount_minor = priced.amount_minor;
          currency = priced.currency;
          policy_version = priced.policy_version;
          expires_at = priced.expires_at;
        }
          ∷ [];
    outbox =
        db.outbox
        ++ record {
          aggregate_id = quote;
          aggregate_version = none;
          event_type = quote_created;
          correlation_id = correlation;
          causation_id = command;
        }
          ∷ [];
  }
  ok (quote, add_command key booking (quote_made quote) stored)

abbrev pub or_else : {A : Type 0} → Option A → Statements A → Statements A
or_else none m db = m db
or_else (some a) m db = ok (a, db)

unfoldable pub persist_quote : ℕ → PricedQuote → Text → ℕ → Service ℕ
unfolding text_eq
persist_quote booking priced key correlation db =
    transaction
      (or_else (find_response quote_made_of (with_key key) db.commands)
        (insert_quote booking priced key correlation))
      db

-- The next service call, if this one returned.
abbrev pub and_then :
    {A B : Type 0} → Result ServiceError A × Db → (A → Service B) → Result ServiceError B × Db
and_then (ok a, db) f = f a db
and_then (err e, db) f = (err e, db)

abbrev pub quote_result : BookingSummary → ℕ → PricedQuote → BookingQuoteResult
quote_result booking quote priced = record {
  booking = booking;
  quote = record {
    quote_id = quote;
    amount_minor = priced.amount_minor;
    currency = priced.currency;
    policy_version = priced.policy_version;
    expires_at = priced.expires_at;
    non_commercial_development_fixture = priced.non_commercial_development_fixture;
  };
}

abbrev pub remember_quoted : Text → ℕ → BookingQuoteResult → Service BookingQuoteResult
remember_quoted key booking r db = (
  ok r,
  add_if_new (find_response quoted_of (with_key key) db.commands) key booking (quoted r) db,
)

-- Pricing, then three transactions, each committed before the next one begins.
unfoldable pub price_and_present :
    PricingPort → ℕ → Principal → Text → BookingSummary → Service BookingQuoteResult
price_and_present pricing booking actor key before_ db =
    elim (pricing booking before_.region_code before_.scheduled_for) [
      | err e ↦ (err e, db)
      | ok priced ↦
          let correlation = db.next_id in
          and_then
            (persist_quote booking priced key correlation (record db { next_id = suc db.next_id }))
            (λ quote d.
              and_then
                (transition_booking booking draft BookingStatus.quote_created actor
                  (units "QUOTE_CREATED") correlation d)
                (λ _ d.
                  and_then
                    (transition_booking booking BookingStatus.quote_created awaiting_confirmation
                      actor (units "QUOTE_PRESENTED") correlation d)
                    (λ updated. remember_quoted key booking (quote_result updated quote priced))))
    ]

abbrev stored_or :
    {A : Type 0}
    → Option A
    → Result ServiceError BookingSummary
    → Result ServiceError (A ⊎ BookingSummary)
stored_or (some a) r = ok (inl a)
stored_or none (ok s) = ok (inr s)
stored_or none (err e) = err e

abbrev pub is_draft : BookingStatus → Bool
is_draft draft = true
is_draft _ = false

-- The check of the booker, the lookup of a stored response and, without one, the summary: what
-- comes before anything is written.
unfoldable pub stored_or_booking :
    {A : Type 0}
    → (Response → Option A)
    → ℕ
    → Principal
    → Text
    → Db
    → Result ServiceError (A ⊎ BookingSummary)
unfolding text_eq
stored_or_booking pick booking actor key db =
    require (is_booker db booking actor.person_id) forbidden
    >> stored_or (find_response pick (with_key_of key booking) db.commands)
        (read_booking_summary db booking)

abbrev pub quote_from :
    PricingPort
    → ℕ
    → Principal
    → Text
    → Result ServiceError (BookingQuoteResult ⊎ BookingSummary)
    → Service BookingQuoteResult
quote_from pricing booking actor key (err e) db = (err e, db)
quote_from pricing booking actor key (ok (inl r)) db = (ok r, db)
quote_from pricing booking actor key (ok (inr s)) db =
    let rest = price_and_present pricing booking actor key s db in
    elim (is_draft s.status) [ true ↦ rest | false ↦ (err conflict, db) ]

unfoldable pub quote_rider_booking : PricingPort → ℕ → Principal → Text → Service BookingQuoteResult
quote_rider_booking pricing booking actor key db =
    quote_from pricing booking actor key (stored_or_booking quoted_of booking actor key db) db
