-- ===== src/Booking/Confirm/Laws.antt =====
-- What the acceptance of a quote needs and writes (booking-service.ts, acceptQuote).
use dazat_mobility.Base.{
  ℕ, suc, true, false, ◌&&◌, none, some, [], ◌∷◌, ◌++◌, ◌==◌, ◌≡◌, refl, arith, Bool-cases,
  Option-cases, inl, inr, Date, before,
}
use dazat_mobility.Base.Texts.{Text}
use dazat_mobility.Base.Results.{ok, err}
use dazat_mobility.Pricing.{QuoteStatus, is_quote_usable}
use dazat_mobility.Booking.Store.{FareAgreement, QuoteRow, Db, ServiceError, transaction, first_of}
use dazat_mobility.Booking.Transition.Laws.{settle-ok, settle-err}
use dazat_mobility.Booking.Quotes.{quote_accepted_of, find_response, with_key}
use dazat_mobility.Booking.Confirm.{
  agreement_of, agreed, store_agreement, accept_statements, accept_quote,
}

-- An acceptance of a quote: the quote of the booking was offered and not expired, neither the
-- booking nor the quote had an agreement, and the agreement that is stored has the quote's terms.
pub record IsAcceptance (booking quote : ℕ) (now : Date) (db : Db) (f : FareAgreement) (after : Db)
    : Type 0 where
  pub q : QuoteRow
  pub found : first_of (λ r. r.id == quote && r.booking_id == booking) db.quotes ≡ some q
  pub was_offered : q.status ≡ QuoteStatus.offered
  pub current : before now q.expires_at ≡ true
  pub first_time : agreed booking q.id db ≡ false
  pub amount : f.amount_minor ≡ q.amount_minor
  pub currency : f.currency ≡ q.currency
  pub policy : f.policy_version ≡ q.policy_version
  pub stored : after.agreements ≡ db.agreements ++ (booking, f) ∷ []

usable-eq :
    (status : QuoteStatus) (expires now : Date)
    → is_quote_usable status expires now ≡ true
    → (status ≡ QuoteStatus.offered) × (before now expires ≡ true)
unfolding is_quote_usable
usable-eq status expires now h = ground arith

statements-IsAcceptance :
    (booking quote : ℕ) (key : Text) (correlation : ℕ) (now : Date) (db : Db) (f : FareAgreement)
    (after : Db)
    → accept_statements booking quote key correlation now db ≡ ok (f, after)
    → IsAcceptance booking quote now db f after
unfolding accept_statements store_agreement
statements-IsAcceptance booking quote key correlation now db f after h =
    elim (Option-cases (first_of (λ r. r.id == quote && r.booking_id == booking) db.quotes)) [
      | inl gone ↦ absurd (ground arith)
      | inr (q, found) ↦ elim (Bool-cases (is_quote_usable q.status q.expires_at now)) [
        | inr late ↦ absurd (ground arith)
        | inl usable ↦ elim (Bool-cases (agreed booking q.id db)) [
          | inl twice ↦ absurd (ground arith)
          | inr first_time ↦
              let is_offered_now = usable-eq q.status q.expires_at now usable in
              let is_f : agreement_of (suc db.next_id) q now ≡ f = ground arith in
              let is_after : store_agreement booking q key correlation now db ≡ after =
                ground arith in
              rw (← is_f, ← is_after)
                (record {
                  q = q;
                  found = found;
                  was_offered = is_offered_now.0;
                  current = is_offered_now.1;
                  first_time = first_time;
                  amount = refl;
                  currency = refl;
                  policy = refl;
                  stored = refl;
                })
        ]
      ]
    ]

-- With a key that is new, an acceptance that returns took an offered quote of the booking that had
-- not expired, for a booking and a quote without an agreement, and stored its terms as the one new
-- agreement. One that throws leaves every table as it was, so an expired quote stays OFFERED.
pub accept-IsAcceptance :
    (booking quote : ℕ) (key : Text) (correlation : ℕ) (now : Date) (db : Db)
    → find_response quote_accepted_of (with_key key) db.commands ≡ none
    → ((f : FareAgreement) (after : Db)
        → accept_quote booking quote key correlation now db ≡ (ok f, after)
        → IsAcceptance booking quote now db f after)
      × ((e : ServiceError) (after : Db)
          → accept_quote booking quote key correlation now db ≡ (err e, after)
          → after ≡ db)
unfolding accept_quote transaction
accept-IsAcceptance booking quote key correlation now db new =
    let statements = accept_statements booking quote key correlation now in
    (
      λ f after h.
          statements-IsAcceptance booking quote key correlation now db f after
            (settle-ok (statements db) db f after (rw new at h)),
      λ e after h. settle-err (statements db) db e after (rw new at h),
    )
