-- ===== src/Driver/Fatigue/DutyStart.antt =====
-- packages/domain/src/driver-daily-operations.ts: the start of the duty that the fatigue
-- decision counts.
use dazat_mobility.Base.{
  true, Option, none, some, Date, Number, less_eq, minutes_between, before, ◌≡◌, refl, ◌⊎◌, inl,
  inr, Bool-cases, sym, ◌∙◌, if◌then◌else◌, arith,
}
use dazat_mobility.Driver.Fatigue.{
  DriverFatigueSafetyInput, at_least, effective_start, rest_minutes, later_start,
}

-- The last rest, from `started` to `b`, was long enough and ended after the start of the shift.
abbrev pub RestCounts : Number → Option Date → Option Date → Option Date → Date → Type 0
RestCounts minimum started ended shift b =
    (a s : Date) × (started ≡ some a)
    × (ended ≡ some b)
    × (shift ≡ some s)
    × (less_eq minimum (minutes_between b a) ≡ true)
    × (before s b ≡ true)

-- The duty starts at the end of such a rest, and where there is none at the start of the shift.
abbrev pub StartsAt : Number → Option Date → Option Date → Option Date → Option Date → Type 0
StartsAt minimum started ended shift start =
    ((b : Date) × RestCounts minimum started ended shift b × (start ≡ some b))
    ⊎ (((b : Date) → ¬ RestCounts minimum started ended shift b) × (start ≡ shift))

abbrev pub IsDutyStart : DriverFatigueSafetyInput → Option Date → Type 0
IsDutyStart i start =
    StartsAt i.policy.minimum_qualifying_rest_minutes i.last_qualifying_rest_started_at
      i.last_qualifying_rest_ended_at i.shift_started_at start

-- The start that the code computes, over any minimum of rest.
abbrev start_of : Number → Option Date → Option Date → Option Date → Option Date
start_of minimum started ended shift =
    later_start (if at_least (rest_minutes started ended) minimum then ended else none) shift

counted :
    (minimum : Number) (a b s c : Date)
    → RestCounts minimum (some a) (some b) (some s) c
    → (less_eq minimum (minutes_between b a) ≡ true) × (before s b ≡ true)
counted minimum a b s c (x, y, from, to, shift, long, later) = (cc, cc)

rested_start :
    (minimum : Number) (a b s : Date)
    → StartsAt minimum (some a) (some b) (some s) (start_of minimum (some a) (some b) (some s))
rested_start minimum a b s = elim (Bool-cases (less_eq minimum (minutes_between b a))) [
  | inr short ↦
      inr (
        λ c r. let (long, later) = counted minimum a b s c r in absurd (ground arith),
        rw short refl,
      )
  | inl long ↦ elim (Bool-cases (before s b)) [
    | inr early ↦ inr (
      λ c r. let (enough, later) = counted minimum a b s c r in absurd (ground arith),
      rw (long, early) refl,
    )
    | inl later ↦ inl (b, (a, s, refl, refl, refl, long, later), rw (long, later) refl)
  ]
]

no_shift : (rest : Option Date) → later_start rest none ≡ none
no_shift none = refl
no_shift (some b) = refl

starts_at :
    (minimum : Number) (started ended shift : Option Date)
    → StartsAt minimum started ended shift (start_of minimum started ended shift)
starts_at minimum none ended shift = inr (λ b (a, s, c, d, e, f, g). absurd (ground arith), refl)
starts_at minimum (some x) none shift = inr (λ b (a, s, c, d, e, f, g). absurd (ground arith), refl)
starts_at minimum (some x) (some y) none =
    inr (λ b (a, s, c, d, e, f, g). absurd (ground arith), no_shift _)
starts_at minimum (some x) (some y) (some z) = rested_start minimum x y z

-- There is one such start.
start_unique :
    (minimum : Number) (started ended shift one other : Option Date)
    → StartsAt minimum started ended shift one
    → StartsAt minimum started ended shift other
    → one ≡ other
start_unique minimum started ended shift one other (inl (b, (a, s, from, to, on, long, later), is))
      (inl (c, (d, e, f, to_c, g, h, k), is_c)) =
    is ∙ sym to ∙ to_c ∙ sym is_c
start_unique minimum started ended shift one other (inl (b, counts, is)) (inr (none_counts, is_c)) =
    absurd (none_counts b counts)
start_unique minimum started ended shift one other (inr (none_counts, is)) (inl (c, counts, is_c)) =
    absurd (none_counts c counts)
start_unique minimum started ended shift one other (inr (x, is)) (inr (y, is_c)) = is ∙ sym is_c

pub duty_start : (i : DriverFatigueSafetyInput) → IsDutyStart i (effective_start i)
duty_start i =
    starts_at i.policy.minimum_qualifying_rest_minutes i.last_qualifying_rest_started_at
      i.last_qualifying_rest_ended_at i.shift_started_at

pub is_duty_start :
    (i : DriverFatigueSafetyInput) (start : Option Date)
    → IsDutyStart i start
    → start ≡ effective_start i
is_duty_start i start h =
    start_unique i.policy.minimum_qualifying_rest_minutes i.last_qualifying_rest_started_at
      i.last_qualifying_rest_ended_at i.shift_started_at start (effective_start i) h (duty_start i)
