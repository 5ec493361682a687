-- ===== src/Finance/Ledger/Laws.antt =====
-- The reversal of ledger entries, and what the ledger's totals are (finance.ts).
use dazat_mobility.Base.{
  ℕ, ◌+◌, Bool, true, ◌&&◌, not, List, [], ◌∷◌, ◌++◌, natural, less_eq, is_safe_integer, to_natural,
  length, ltb, ◌≡◌, refl, ◌∙◌, arith, ◌↔◌, inl, inr, length-append, length-map,
}
use dazat_mobility.Base.Texts.{Text, has_content, text_eq}
use dazat_mobility.Base.Results.{Result, ok, err, ◌>>=◌, >>=-eq-ok, Result-cases}
use dazat_mobility.Pricing.{assert_currency_code}
use dazat_mobility.Finance.Ledger.{
  LedgerDirection, debit, credit, LedgerEntryInput, LedgerBalanceDecision, LedgerError, Totals,
  add_amount, add_entry, add_entries, decision, evaluate_balanced_ledger, assert_balanced_ledger,
  opposite, reverse_entry, reverse_ledger_entries,
}

-- The amounts posted in each direction.
abbrev posted : LedgerDirection → LedgerDirection → ℕ → ℕ
posted debit debit n = n
posted credit credit n = n
posted _ _ n = 0

abbrev pub total : LedgerDirection → List LedgerEntryInput → ℕ
total d [] = 0
total d (e ∷ es) = posted d e.direction (to_natural e.amount_minor) + total d es

-- The entry passes the tests of the loop.
abbrev is_postable : (Text → Text) → Text → LedgerEntryInput → Bool
is_postable upper code e =
    has_content e.account_id
    && (is_safe_integer e.amount_minor && not (less_eq e.amount_minor (natural 0)))
    && text_eq (upper e.currency) code

module _ (upper : Text → Text) (code : Text) where
  postable :
      (e : LedgerEntryInput) (t u : Totals)
      → add_entry upper code e t ≡ ok u
      → is_postable upper code e ≡ true
  unfolding add_entry
  postable e t u h = ground arith

  add_entry_lem :
      (e : LedgerEntryInput) (t : Totals)
      → is_postable upper code e ≡ true
      → add_entry upper code e t ≡ ok (add_amount e.direction (to_natural e.amount_minor) t)
  unfolding add_entry
  add_entry_lem e t h = ground arith

  abbrev AllPostable : List LedgerEntryInput → Type 0
  AllPostable [] = Unit
  AllPostable (e ∷ es) = (is_postable upper code e ≡ true) × AllPostable es

  entries_postable :
      (es : List LedgerEntryInput) (t u : Totals)
      → add_entries upper code es t ≡ ok u
      → AllPostable es
  unfolding add_entries
  entries_postable [] t u h = tt
  entries_postable (e ∷ es) t u h =
      let (v, first, rest) = >>=-eq-ok (add_entry upper code e t) (add_entries upper code es) h in
      (postable e t v first, entries_postable es v u rest)

  add_entries_lem :
      (es : List LedgerEntryInput) (t : Totals)
      → AllPostable es
      → add_entries upper code es t
        ≡ ok (record { debits = t.debits + total debit es; credits = t.credits + total credit es })
  unfolding add_entries add_amount
  add_entries_lem [] t h = ground arith
  add_entries_lem (e ∷ es) t (first, rest) = rw (add_entry_lem e t first) (
      add_entries_lem es (add_amount e.direction (to_natural e.amount_minor) t) rest ∙ ground arith)

  reversed_postable :
      (es : List LedgerEntryInput) → AllPostable es → AllPostable (reverse_ledger_entries es)
  unfolding reverse_ledger_entries
  reversed_postable [] h = tt
  reversed_postable (e ∷ es) h = (h.0, reversed_postable es h.1)

  append_postable :
      (es fs : List LedgerEntryInput) → AllPostable es → AllPostable fs → AllPostable (es ++ fs)
  append_postable [] fs h k = k
  append_postable (e ∷ es) fs h k = (h.0, append_postable es fs h.1 k)

total-append :
    (d : LedgerDirection) (es fs : List LedgerEntryInput)
    → total d (es ++ fs) ≡ total d es + total d fs
total-append d [] fs = omega arith
total-append d (e ∷ es) fs = omega (arith, total-append d es fs)

total-reverse :
    (d : LedgerDirection) (es : List LedgerEntryInput)
    → total d (reverse_ledger_entries es) ≡ total (opposite d) es
unfolding reverse_ledger_entries
total-reverse d [] = refl
total-reverse debit (e ∷ es) = ground (arith, total-reverse debit es)
total-reverse credit (e ∷ es) = ground (arith, total-reverse credit es)

swap : Totals → Totals
swap t = record { debits = t.credits; credits = t.debits }

swapped : Result LedgerError Totals → Result LedgerError Totals
swapped (ok t) = ok (swap t)
swapped (err e) = err e

swapped-bind :
    (r : Result LedgerError Totals) (f g : Totals → Result LedgerError Totals)
    → ((t : Totals) → f (swap t) ≡ swapped (g t))
    → (swapped r >>= f) ≡ swapped (r >>= g)
unfolding swapped
swapped-bind (ok t) f g h = h t
swapped-bind (err e) f g h = refl

module _ (upper : Text → Text) (code : Text) where
  add_entry_reversed :
      (e : LedgerEntryInput) (t : Totals)
      → add_entry upper code (reverse_entry e) (swap t) ≡ swapped (add_entry upper code e t)
  unfolding add_entry swap swapped
  add_entry_reversed e t = ground arith

  add_entries_reversed :
      (es : List LedgerEntryInput) (t : Totals)
      → add_entries upper code (reverse_ledger_entries es) (swap t)
        ≡ swapped (add_entries upper code es t)
  unfolding add_entries reverse_ledger_entries
  add_entries_reversed [] t = unfold swapped in refl
  add_entries_reversed (e ∷ es) t = rw (add_entry_reversed e t) (
      swapped-bind (add_entry upper code e t) (add_entries upper code (reverse_ledger_entries es))
        (add_entries upper code es) (add_entries_reversed es))

module _ (upper : Text → Text) where
  evaluated :
      (e : LedgerEntryInput) (es : List LedgerEntryInput) (d : LedgerBalanceDecision)
      → evaluate_balanced_ledger upper (e ∷ es) ≡ ok d
      → (ltb 1 (length (e ∷ es)) ≡ true)
        × (c : Text) × (assert_currency_code upper (upper e.currency) ≡ ok c)
        × (t : Totals) × (add_entries upper
              (upper e.currency)
              (e ∷ es)
              (record { debits = 0; credits = 0 })
            ≡ ok t)
        × (decision (upper e.currency) t ≡ d)
  unfolding evaluate_balanced_ledger
  evaluated e es d h = elim (Result-cases (assert_currency_code upper (upper e.currency))) [
    | inl (c, p) ↦
        elim (Result-cases
          (add_entries upper (upper e.currency) (e ∷ es) (record { debits = 0; credits = 0 }))) [
            | inl (t, q) ↦ (ground arith, c, p, t, q, ground arith)
            | inr (x, q) ↦ absurd (ground arith)
          ]
    | inr (x, p) ↦ absurd (ground arith)
  ]

  -- An evaluated ledger has the totals of its debits and of its credits, and is balanced exactly
  -- when they are equal.
  pub evaluate_totals :
      (es : List LedgerEntryInput) (d : LedgerBalanceDecision)
      → evaluate_balanced_ledger upper es ≡ ok d
      → (d.debit_minor ≡ total debit es)
        × (d.credit_minor ≡ total credit es)
        × ((d.balanced ≡ true) ↔ (total debit es ≡ total credit es))
  unfolding evaluate_balanced_ledger
  evaluate_totals [] d h = cc
  evaluate_totals (e ∷ es) d h =
      let (room, c, code, t, added, same) = evaluated e es d h in
      let all = entries_postable upper (upper e.currency) (e ∷ es) _ t added in
      let sums =
        add_entries_lem upper (upper e.currency) (e ∷ es) (record { debits = 0; credits = 0 })
          all in
      ground arith

  -- A ledger transaction that can be evaluated at all is balanced when its reversal is added to it.
  pub balanced_with_reversal :
      (es : List LedgerEntryInput) (d : LedgerBalanceDecision)
      → evaluate_balanced_ledger upper es ≡ ok d
      → assert_balanced_ledger upper (es ++ reverse_ledger_entries es) ≡ ok tt
  unfolding assert_balanced_ledger
  balanced_with_reversal [] d h = cc
  balanced_with_reversal (e ∷ es) d h =
      let rev = reverse_ledger_entries (e ∷ es) in
      let code = upper e.currency in
      let (room, c, valid, t, added, same) = evaluated e es d h in
      let all = entries_postable upper code (e ∷ es) _ t added in
      let both =
        append_postable upper code (e ∷ es) rev all (reversed_postable upper code (e ∷ es) all) in
      let sums =
        add_entries_lem upper code ((e ∷ es) ++ rev) (record { debits = 0; credits = 0 }) both in
      let debits = total-append debit (e ∷ es) rev in
      let credits = total-append credit (e ∷ es) rev in
      let there = total-reverse debit (e ∷ es) in
      let back = total-reverse credit (e ∷ es) in
      let longer = length-append es rev in ground (arith, length-map reverse_entry es)

  -- The reversal is balanced exactly when the ledger is, and fails with the same error otherwise.
  pub assert_reversed :
      (es : List LedgerEntryInput)
      → assert_balanced_ledger upper (reverse_ledger_entries es) ≡ assert_balanced_ledger upper es
  unfolding assert_balanced_ledger reverse_ledger_entries swapped swap
  assert_reversed [] = refl
  assert_reversed (e ∷ es) =
      let code = upper e.currency in
      let zero_ : Totals = record { debits = 0; credits = 0 } in
      let rev = add_entries_reversed upper code (e ∷ es) zero_ in
      let same = length-map reverse_entry es in
      elim (Result-cases (add_entries upper code (e ∷ es) zero_)) [
        | inl (t, q) ↦ ground arith
        | inr (x, q) ↦ ground arith
      ]
