-- ===== src/Identity/Laws.antt =====
-- Account capabilities, recovery and contacts (identity.ts, authentication.ts).
use dazat_mobility.Base.{
  ℕ, Bool, true, false, not, ◌&&◌, ◌||◌, Option, none, some, List, [], ◌∷◌, ◌++◌, includes, same,
  same-eq, same_refl, every, ◌==◌, ◌≡◌, ◌≢◌, refl, ◌⊎◌, arith, if◌then◌else◌, every-imp,
  every-append, every-keep, keep_of_every,
}
use dazat_mobility.Base.Texts.{Text, trim, is_space, trim_of_no_space}
use dazat_mobility.Base.Results.{ok, err}
use dazat_mobility.Identity.Account.{
  AccountStatus, limited, suspended, closed, AccountCapability, support, prepare_payment,
  change_security, change_payout, can_use_account_capability, RecoveryState, RecoveryState-discrete,
  started, recovery_approved, security_reset, recovery_complete, can_transition_recovery_state,
}
use dazat_mobility.Identity.Contact.{
  ContactPointType, email, mobile, landline, plain, before_at, after_at, is_domain, is_email,
  is_e164, compact_phone, normalise_contact,
}

abbrev pub Allows : AccountStatus → AccountCapability → Type 0
Allows s c = can_use_account_capability s c ≡ true

-- SUPPORT is open in every status of an account. What a LIMITED account may do an ACTIVE one may;
-- a PENDING account may otherwise only change its security, and a SUSPENDED or CLOSED one nothing.
pub capabilities_nested :
    (s : AccountStatus) (c : AccountCapability)
    → Allows s support
      × (Allows s c → Allows AccountStatus.active c)
      × (Allows suspended c → Allows s c)
      × (Allows closed c → Allows suspended c)
      × (Allows AccountStatus.pending c → (c ≡ support) ⊎ (c ≡ change_security))
      × (Allows limited c → (c ≢ change_payout) × (c ≢ change_security) × (c ≢ prepare_payment))
unfolding can_use_account_capability
capabilities_nested AccountStatus.pending c = ground arith
capabilities_nested _ c = ground arith

-- `path` follows allowed transitions of a recovery.
unfoldable pub recovery_chain_ok : RecoveryState → List RecoveryState → Bool
recovery_chain_ok s [] = true
recovery_chain_ok s (t ∷ ts) = can_transition_recovery_state s t && recovery_chain_ok t ts

into_reset :
    (s : RecoveryState)
    → can_transition_recovery_state s security_reset ≡ true
    → s ≡ recovery_approved
unfolding can_transition_recovery_state
into_reset s h = ground arith

into_complete :
    (s : RecoveryState)
    → can_transition_recovery_state s recovery_complete ≡ true
    → s ≡ security_reset
unfolding can_transition_recovery_state
into_complete s h = ground arith

abbrev pub visits : List RecoveryState → RecoveryState → Bool
visits = includes RecoveryState-discrete

recovery_before :
    (p q s : RecoveryState) (path : List RecoveryState)
    → ((a : RecoveryState) → can_transition_recovery_state a q ≡ true → a ≡ p)
    → recovery_chain_ok s path ≡ true
    → visits path q ≡ true
    → visits (s ∷ path) p ≡ true
unfolding recovery_chain_ok
recovery_before p q s [] only c h = cc
recovery_before p q s (t ∷ ts) only c h = ground (
  arith,
  same-eq RecoveryState-discrete t q,
  only s,
  same_refl RecoveryState-discrete p,
  recovery_before p q t ts only,
)

-- A recovery that starts at STARTED is complete only after it was approved and the security reset.
pub recovery_needs_approval :
    (path : List RecoveryState)
    → recovery_chain_ok started path ≡ true
    → visits path recovery_complete ≡ true
    → (visits path security_reset ≡ true) × (visits path recovery_approved ≡ true)
unfolding RecoveryState-discrete
recovery_needs_approval path c h =
    let reset = recovery_before security_reset recovery_complete started path into_complete c h in
    (reset, recovery_before recovery_approved security_reset started path into_reset c reset)

not-or_left : (a b : Bool) → not (a || b) ≡ true → not a ≡ true
not-or_left a b h = ground arith

plain-no_space : (c : ℕ) → plain c ≡ true → not (is_space c) ≡ true
plain-no_space c h = not-or_left (is_space c) (c == b'@') h

-- A text with an `@` is what stands before the first one, the `@` and what stands after it.
split_at_sign : (s d : Text) → after_at s ≡ some d → s ≡ before_at s ++ b'@' ∷ d
unfolding after_at before_at
split_at_sign [] d h = cc
split_at_sign (c ∷ s) d h = ground (arith, split_at_sign s d)

and-left : (a b : Bool) → (a && b) ≡ true → a ≡ true
and-left a b h = ground arith

email_parts :
    (a e : Bool) (o : Option Text)
    → (a && e && is_domain o) ≡ true
    → (d : Text) × (o ≡ some d) × (e ≡ true) × (every plain d ≡ true)
email_parts true true (some d) h = (d, refl, refl, and-left _ _ h)
email_parts true false (some d) h = cc
email_parts false e (some d) h = cc
email_parts a e none h = absurd (ground arith)

email_no_space : (s : Text) → is_email s ≡ true → every (λ c. not (is_space c)) s ≡ true
unfolding is_email
email_no_space s h =
    let (d, found, first, second) = email_parts _ _ (after_at s) h in
    rw (split_at_sign s d found) (
      every-append (λ c. not (is_space c)) (before_at s) (b'@' ∷ d)
        (every-imp plain (λ c. not (is_space c)) (before_at s) plain-no_space first)
        (every-imp plain (λ c. not (is_space c)) d plain-no_space second))

-- What a phone keeps of a text.
abbrev kept : ℕ → Bool
kept c = not (is_space c || c == b'(' || c == b')' || c == b'-')

not-or_four : (a b c d : Bool) → not (a || b || c || d) ≡ true → not a ≡ true
not-or_four a b c d h = ground arith

kept-no_space : (c : ℕ) → kept c ≡ true → not (is_space c) ≡ true
kept-no_space c h = not-or_four (is_space c) (c == b'(') (c == b')') (c == b'-') h

if-ok :
    {E A : Type 0} (b : Bool) (x v : A) (e : E)
    → (if b then ok x else err e) ≡ ok v
    → (b ≡ true) × (x ≡ v)
if-ok true x v e h = (refl, ground arith)
if-ok false x v e h = cc

module _ (lower : Text → Text) (idem : (s : Text) → lower (lower s) ≡ lower s) where
  email_again :
      (raw value : Text)
      → normalise_contact lower email raw ≡ ok value
      → normalise_contact lower email value ≡ ok value
  unfolding normalise_contact
  email_again raw value h =
      let (valid, same) = if-ok _ _ value _ h in
      let trimmed = trim_of_no_space value (email_no_space value (rw (← same) valid)) in
      let lowered : lower value ≡ value = rw (← same) (idem (trim raw)) in
      rw (trimmed, lowered, rw same at valid) refl

phone_again :
    (text value : Text)
    → is_e164 (compact_phone text) ≡ true
    → compact_phone text ≡ value
    → (trim value ≡ value) × (compact_phone value ≡ value)
unfolding compact_phone
phone_again text value valid same =
    let clean : every kept value ≡ true = rw (← same) (every-keep kept text) in
    (
      trim_of_no_space value (every-imp kept (λ c. not (is_space c)) value kept-no_space clean),
      keep_of_every kept value clean,
    )

-- A normalised contact is normalised again to itself, if lowering a text twice is lowering it once.
pub normalise_idempotent :
    (lower : Text → Text)
    → ((s : Text) → lower (lower s) ≡ lower s)
    → (type : ContactPointType) (raw value : Text) → normalise_contact lower type raw ≡ ok value
    → normalise_contact lower type value ≡ ok value
unfolding normalise_contact
normalise_idempotent lower idem email raw value h = email_again lower idem raw value h
normalise_idempotent lower idem mobile raw value h =
    let (valid, same) = if-ok _ _ value _ h in
    let (trimmed, compacted) = phone_again (trim raw) value valid same in
    rw (trimmed, compacted, rw same at valid) refl
normalise_idempotent lower idem landline raw value h =
    let (valid, same) = if-ok _ _ value _ h in
    let (trimmed, compacted) = phone_again (trim raw) value valid same in
    rw (trimmed, compacted, rw same at valid) refl
