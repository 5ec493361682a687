-- ===== src/Driver/Daily/Laws.antt =====
-- Informed offers and connectivity (driver-daily-operations.ts).
use dazat_mobility.Base.{
  ℕ, ◌≤◌, Option, none, some, List, [], ◌∷◌, ◌++◌, inl, inr, Number, is_finite, is_safe_integer,
  is_empty, Bool, true, false, ◌||◌, not, some_of, ◌≡◌, refl, ◌↔◌, ap, arith, collect-empty_iff,
  Bool-cases, natural, less,
}
use dazat_mobility.Base.Texts.{Text, trim, has_content, has_content_opt, is_currency_code}
use dazat_mobility.Base.Results.{ok}
use dazat_mobility.Driver.Daily.{
  DriverOfferDisclosureInput, not_a_measure, not_an_amount, not_a_currency, disclosure_rows,
  evaluate_driver_offer_disclosure, ConnectivityAssessmentInput, ConnectivityAssessment, sync_age,
  connectivity_state, assess_driver_connectivity, online,
}

-- A text that is not empty when it is trimmed.
abbrev pub HasContent : Text → Type 0
HasContent t = is_empty (trim t) ≡ false

abbrev pub IsCapital : ℕ → Type 0
IsCapital c = (65 ≤ c) × (c ≤ 90)

-- A finite number that is not below zero.
abbrev pub IsMeasure : Option Number → Type 0
IsMeasure o = (x : Number) × (o ≡ some x) × (is_finite x ≡ true) × (less x (natural 0) ≡ false)

-- A safe integer that is not below zero.
abbrev pub IsAmount : Option Number → Type 0
IsAmount o = (x : Number) × (o ≡ some x) × (is_safe_integer x ≡ true) × (less x (natural 0) ≡ false)

-- Three capital letters of ASCII.
abbrev pub IsCurrency : Option Text → Type 0
IsCurrency o = (a b c : ℕ) × (o ≡ some (a ∷ b ∷ c ∷ [])) × IsCapital a × IsCapital b × IsCapital c

abbrev pub IsVersion : Option Text → Type 0
IsVersion o = (t : Text) × (o ≡ some t) × HasContent t

abbrev pub HasSome : List Text → Type 0
HasSome texts = (first rest : List Text) × (t : Text) × (texts ≡ first ++ t ∷ rest) × HasContent t

-- Everything a driver is told before an offer can be accepted.
pub record IsInformed (i : DriverOfferDisclosureInput) : Type 0 where
  pub distance : IsMeasure i.pickup_distance_metres
  pub eta : IsMeasure i.pickup_eta_minutes
  pub services : HasSome i.service_codes
  pub context : HasSome i.journey_context_labels
  pub amount : IsAmount i.expected_earning_amount_minor
  pub currency : IsCurrency i.expected_earning_currency
  pub policy : IsVersion i.expected_earning_policy_version
  pub own_basis : i.expected_earning_derived_from_rider_fare ≡ false
  pub free_decline : i.ordinary_decline_penalty_applied ≡ false

not-false : (b : Bool) → not b ≡ false → b ≡ true
not-false b h = ground arith

or-false : (a b : Bool) → a || b ≡ false → (a ≡ false) × (b ≡ false)
or-false a b h = ground arith

not_a_measure-IsMeasure : (o : Option Number) → (not_a_measure o ≡ false) ↔ IsMeasure o
not_a_measure-IsMeasure none = (λ h. absurd (ground arith), λ (x, is, a, b). absurd (ground arith))
not_a_measure-IsMeasure (some x) = (
  λ h. (x, refl, ground arith, ground arith),
  λ (y, is, fin, pos). let eq : y ≡ x = cc in rw (← eq) (ground arith),
)

not_an_amount-IsAmount : (o : Option Number) → (not_an_amount o ≡ false) ↔ IsAmount o
not_an_amount-IsAmount none = (λ h. absurd (ground arith), λ (x, is, a, b). absurd (ground arith))
not_an_amount-IsAmount (some x) = (
  λ h. (x, refl, ground arith, ground arith),
  λ (y, is, safe, pos). let eq : y ≡ x = cc in rw (← eq) (ground arith),
)

not_a_currency-IsCurrency : (o : Option Text) → (not_a_currency o ≡ false) ↔ IsCurrency o
unfolding is_currency_code
not_a_currency-IsCurrency none =
    (λ h. absurd (ground arith), λ (x, y, z, is, p, q, r). absurd (ground arith))
not_a_currency-IsCurrency (some []) =
    (λ h. absurd (ground arith), λ (x, y, z, is, p, q, r). absurd (ground arith))
not_a_currency-IsCurrency (some (a ∷ [])) =
    (λ h. absurd (ground arith), λ (x, y, z, is, p, q, r). absurd (ground arith))
not_a_currency-IsCurrency (some (a ∷ b ∷ [])) =
    (λ h. absurd (ground arith), λ (x, y, z, is, p, q, r). absurd (ground arith))
not_a_currency-IsCurrency (some (a ∷ b ∷ c ∷ [])) = (
  λ h. (a, b, c, refl, ground arith, ground arith, ground arith),
  λ (x, y, z, is, p, q, r). ground arith,
)
not_a_currency-IsCurrency (some (a ∷ b ∷ c ∷ d ∷ rest)) =
    (λ h. absurd (ground arith), λ (x, y, z, is, p, q, r). absurd (ground arith))

has_content_opt-IsVersion : (o : Option Text) → (has_content_opt o ≡ true) ↔ IsVersion o
unfolding has_content_opt has_content
has_content_opt-IsVersion none =
    (λ h. absurd (ground arith), λ (x, is, full). absurd (ground arith))
has_content_opt-IsVersion (some t) =
    (λ h. (t, refl, ground arith), λ (y, is, full). let eq : y ≡ t = cc in rw (← eq) (ground arith))

content_iff : (t : Text) → (has_content t ≡ true) ↔ HasContent t
unfolding has_content
content_iff t = ground arith

has_some : (texts : List Text) → some_of has_content texts ≡ true → HasSome texts
has_some [] h = absurd (ground arith)
has_some (t ∷ texts) h = elim (Bool-cases (has_content t)) [
  | inl full ↦ ([], texts, t, refl, (content_iff t).0 full)
  | inr blank ↦
      let (first, rest, u, is, full) = has_some texts (ground arith) in
      (t ∷ first, rest, u, ap (λ l. t ∷ l) is, full)
]

some_of-split :
    (p : Text → Bool) (first rest : List Text) (t : Text)
    → p t ≡ true
    → some_of p (first ++ t ∷ rest) ≡ true
some_of-split p [] rest t h = ground arith
some_of-split p (x ∷ first) rest t h = ground (arith, some_of-split p first rest t h)

some_iff : (texts : List Text) → (some_of has_content texts ≡ true) ↔ HasSome texts
some_iff texts = (
  has_some texts,
  λ (first, rest, t, is, full).
      rw is (some_of-split has_content first rest t ((content_iff t).1 full)),
)

-- An offer may be accepted exactly when the driver is told the distance and the time to the pickup,
-- both finite and not below zero, a service and a context of the journey that are not blank, and an
-- amount, a safe integer not below zero in a currency of three capital letters with a policy version
-- that is not blank; the earning does not come from the fare of the rider and a decline has no penalty.
pub acceptance_iff :
    (i : DriverOfferDisclosureInput)
    → ((evaluate_driver_offer_disclosure i).acceptance_allowed ≡ true) ↔ IsInformed i
unfolding evaluate_driver_offer_disclosure disclosure_rows
acceptance_iff i =
    let facts = collect-empty_iff (disclosure_rows i) in
    let distance = not_a_measure-IsMeasure i.pickup_distance_metres in
    let eta = not_a_measure-IsMeasure i.pickup_eta_minutes in
    let services = some_iff i.service_codes in
    let context = some_iff i.journey_context_labels in
    let amount = not_an_amount-IsAmount i.expected_earning_amount_minor in
    let currency = not_a_currency-IsCurrency i.expected_earning_currency in
    let policy = has_content_opt-IsVersion i.expected_earning_policy_version in
    (
      λ h.
          let told = facts.0 h in
          let earning = or-false _ _ told.1.1.1.1.0 in
          record {
            distance = distance.0 told.0;
            eta = eta.0 told.1.0;
            services = services.0 (not-false _ told.1.1.0);
            context = context.0 (not-false _ told.1.1.1.0);
            amount = amount.0 (or-false _ _ earning.0).0;
            currency = currency.0 (or-false _ _ earning.0).1;
            policy = policy.0 (not-false _ earning.1);
            own_basis = told.1.1.1.1.1.0;
            free_decline = told.1.1.1.1.1.1.0;
          },
      λ t. facts.1 (
        distance.1 t.distance,
        (
          eta.1 t.eta,
          (
            ap not (services.1 t.services),
            (
              ap not (context.1 t.context),
              (
                rw (amount.1 t.amount, currency.1 t.currency, policy.1 t.policy) refl,
                (t.own_basis, (t.free_decline, tt)),
              ),
            ),
          ),
        ),
      ),
    )

-- An assessment that returns says that no snapshot of the server is required exactly when the
-- network is reachable, a snapshot was applied and the last sync is neither in the future nor older
-- than the window; it is online exactly when, besides, no critical event is queued.
pub connectivity_lem :
    (i : ConnectivityAssessmentInput) (a : ConnectivityAssessment)
    → assess_driver_connectivity i ≡ ok a
    → let age = sync_age i.now i.last_server_sync_at in
      let Fresh =
        (i.network_reachable ≡ true)
        × (i.authoritative_snapshot_applied ≡ true)
        × (less age (natural 0) ≡ false)
        × (less i.maximum_fresh_age_ms age ≡ false) in
      ((a.authoritative_snapshot_required ≡ false) ↔ Fresh)
      × ((a.state ≡ online) ↔ (Fresh × (less (natural 0) i.queued_critical_event_count ≡ false)))
unfolding assess_driver_connectivity connectivity_state
connectivity_lem i a h = let ask = Bool-cases i.network_reachable in ground arith
