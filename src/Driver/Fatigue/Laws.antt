-- ===== src/Driver/Fatigue/Laws.antt =====
-- What the fatigue decision (driver-daily-operations.ts) allows.
use dazat_mobility.Base.{
  ℕ, ◌≤◌, true, false, Option, none, some, is_empty, Date, invalid, at, Number, nan, neg_infinity,
  pos_infinity, ratio, natural, less, less_eq, ltb, minutes_between, is_safe_integer, ◌≡◌, ◌≢◌,
  refl, subst, ◌↔◌, ◌⊎◌, arith,
}
use dazat_mobility.Base.Results.{ok, four_guards}
use dazat_mobility.Driver.Fatigue.{
  clear, active_journey_handover_required, DriverFatigueSafetyInput, DriverFatigueSafetyDecision,
  FatiguePolicy, policy_ordered, effective_start, duty_minutes, decide_fatigue,
  evaluate_driver_fatigue_safety, rest_minutes, is_negative, is_valid, later_start,
  policy_not_ordered, assessment_time_invalid, rest_ends_before_start, evidence_in_future,
}
use dazat_mobility.Driver.Fatigue.DutyStart.{IsDutyStart, duty_start, is_duty_start}

-- The duty has a value, which is less than the limit or NaN.
abbrev pub IsBelow : Option Number → Number → Type 0
IsBelow duty limit = (x : Number) × (duty ≡ some x) × ((x ≡ nan) ⊎ (less x limit ≡ true))

-- What a fatigue decision says: new work is allowed exactly when no blocker is named, which is when
-- the duty has a value, below the limit or not a number, and nothing was reported or observed. A
-- Journey under way is handed over, with escalation and continuity, exactly when work is refused
-- during a Journey.
pub record IsSound (i : DriverFatigueSafetyInput) (d : DriverFatigueSafetyDecision) : Type 0 where
  pub offers_unblocked : (d.new_offers_allowed ≡ true) ↔ (is_empty d.blockers ≡ true)
  pub starts_with_offers : d.new_journey_start_allowed ≡ d.new_offers_allowed
  pub offers_rested : (d.new_offers_allowed ≡ true) ↔ (
      IsBelow d.observed_duty_minutes i.policy.rest_required_after_duty_minutes
      × (i.driver_reported_fatigue ≡ false)
      × (i.drowsiness_signal_observed ≡ false))
  pub handover_iff :
      (d.state ≡ active_journey_handover_required)
      ↔ ((d.new_offers_allowed ≡ false) × (i.active_journey ≡ true))
  pub escalated :
      (d.control_room_escalation_required ≡ true) ↔ (d.state ≡ active_journey_handover_required)
  pub continuity : d.active_passenger_continuity_required ≡ d.control_room_escalation_required
  pub refused_prompts : d.new_offers_allowed ≡ false → d.break_prompt_required ≡ true
  pub no_fault : d.driver_fault_finding_created ≡ false

-- A safe integer is compared with every number but NaN.
not-less_eq :
    (bound x : Number)
    → is_safe_integer bound ≡ true
    → (less_eq bound x ≡ false) ↔ ((x ≡ nan) ⊎ (less x bound ≡ true))
not-less_eq nan x safe = absurd (ground arith)
not-less_eq neg_infinity x safe = absurd (ground arith)
not-less_eq pos_infinity x safe = absurd (ground arith)
not-less_eq (ratio b d) nan safe = ground arith
not-less_eq (ratio b d) neg_infinity safe = ground arith
not-less_eq (ratio b d) pos_infinity safe = ground arith
not-less_eq (ratio b d) (ratio a e) safe = ground arith

decided_some :
    (i : DriverFatigueSafetyInput) (m : Number)
    → (less_eq i.policy.rest_required_after_duty_minutes m ≡ false)
      ↔ ((m ≡ nan) ⊎ (less m i.policy.rest_required_after_duty_minutes ≡ true))
    → IsSound i (decide_fatigue i (some m))
unfolding decide_fatigue
decided_some i m limit = record {
  offers_unblocked = ground arith;
  starts_with_offers = refl;
  offers_rested = (
    λ h. ((m, refl, limit.0 (ground arith)), ground arith, ground arith),
    λ ((x, same, below), calm, awake).
        let eq : x ≡ m = cc in
        let under = limit.1 (
          subst (λ y. (y ≡ nan) ⊎ (less y i.policy.rest_required_after_duty_minutes ≡ true)) eq
            below) in
        rw (calm, awake, under) refl,
  );
  handover_iff = ground arith;
  escalated = ground arith;
  continuity = refl;
  refused_prompts = ground arith;
  no_fault = refl;
}

decided :
    (i : DriverFatigueSafetyInput) (o : Option Number)
    → is_safe_integer i.policy.rest_required_after_duty_minutes ≡ true
    → IsSound i (decide_fatigue i o)
unfolding decide_fatigue
decided i none safe = ground arith
decided i (some m) safe =
    decided_some i m (not-less_eq i.policy.rest_required_after_duty_minutes m safe)

abbrev pub observed : DriverFatigueSafetyInput → Option Number
observed i = duty_minutes i.now (effective_start i)

-- What a policy has to be: three whole numbers of minutes, a warning before the limit, and a rest.
pub record IsPolicy (p : FatiguePolicy) : Type 0 where
  pub warning_whole : is_safe_integer p.warning_after_duty_minutes ≡ true
  pub warning_later : less (natural 0) p.warning_after_duty_minutes ≡ true
  pub limit_whole : is_safe_integer p.rest_required_after_duty_minutes ≡ true
  pub limit_after_warning :
      less p.warning_after_duty_minutes p.rest_required_after_duty_minutes ≡ true
  pub rest_whole : is_safe_integer p.minimum_qualifying_rest_minutes ≡ true
  pub some_rest : less (natural 0) p.minimum_qualifying_rest_minutes ≡ true

-- The first date is not after the second, where both are there and neither is invalid.
abbrev pub AreOrdered : Option Date → Option Date → Type 0
AreOrdered a b = (m n : ℕ) → a ≡ some (at m) → b ≡ some (at n) → m ≤ n

-- The evidence that the function accepts: a policy, a time, a rest that does not end before it
-- starts, and a duty that does not start after the time, where it starts at the end of a long enough
-- last rest in the shift, or else with the shift.
pub record IsConsistent (i : DriverFatigueSafetyInput) : Type 0 where
  pub policy : IsPolicy i.policy
  pub time : i.now ≢ invalid
  pub rest : AreOrdered i.last_qualifying_rest_started_at i.last_qualifying_rest_ended_at
  pub duty : (start : Option Date) × IsDutyStart i start × AreOrdered start (some i.now)

policy-IsPolicy : (p : FatiguePolicy) → (policy_ordered p ≡ true) ↔ IsPolicy p
policy-IsPolicy p = ground arith

time_valid : (d : Date) → (is_valid d ≡ true) ↔ (d ≢ invalid)
time_valid invalid = ground arith
time_valid (at n) = ground arith

minutes_negative : (m n : ℕ) → less (minutes_between (at n) (at m)) (natural 0) ≡ ltb n m
minutes_negative m n = ground arith

not_negative : (a b : Option Date) → (is_negative (rest_minutes a b) ≡ false) ↔ AreOrdered a b
not_negative none b = ground arith
not_negative (some a) none = ground arith
not_negative (some invalid) (some invalid) = ground arith
not_negative (some invalid) (some (at n)) = ground arith
not_negative (some (at m)) (some invalid) = ground arith
not_negative (some (at m)) (some (at n)) =
    let negative = minutes_negative m n in
    (λ h p q e f. ground arith, λ h. let le = h m n refl refl in ground arith)

duty_rest :
    (now : Date) (start : Option Date) → duty_minutes now start ≡ rest_minutes start (some now)
duty_rest now none = refl
duty_rest now (some start) = refl

duty_not_negative :
    (now : Date) (start : Option Date)
    → (is_negative (duty_minutes now start) ≡ false) ↔ AreOrdered start (some now)
duty_not_negative now start = rw (duty_rest now start) (not_negative start (some now))

module _ (i : DriverFatigueSafetyInput) where
  pub fatigue_returns :
      (IsConsistent i → evaluate_driver_fatigue_safety i ≡ ok (decide_fatigue i (observed i)))
      × ((d : DriverFatigueSafetyDecision)
          → evaluate_driver_fatigue_safety i ≡ ok d
          → IsConsistent i × (decide_fatigue i (observed i) ≡ d))
  unfolding evaluate_driver_fatigue_safety
  fatigue_returns =
      let policy = policy-IsPolicy i.policy in
      let time = time_valid i.now in
      let rest = not_negative i.last_qualifying_rest_started_at i.last_qualifying_rest_ended_at in
      let duty = duty_not_negative i.now (effective_start i) in
      let start = duty_start i in
      let (to, from) =
        four_guards (policy_ordered i.policy) (is_valid i.now)
          (is_negative
            (rest_minutes i.last_qualifying_rest_started_at i.last_qualifying_rest_ended_at))
          (is_negative (observed i)) policy_not_ordered assessment_time_invalid
          rest_ends_before_start evidence_in_future (decide_fatigue i (observed i)) in
      (
        (λ c.
            let (begun, is_start, ordered) = c.duty in
            let same = is_duty_start i begun is_start in
            to (policy.1 c.policy, time.1 c.time, rest.1 c.rest, duty.1 (rw (← same) ordered))),
        (λ d h.
            let ((a, b, c, e), same) = from d h in
            (
              record {
                policy = policy.0 a;
                time = time.0 b;
                rest = rest.0 c;
                duty = (effective_start i, start, duty.0 e);
              },
              same,
            )),
      )

  -- A returned decision is sound: it allows new offers and Journey starts exactly when nothing blocks
  -- them, which is when the duty has a value that is below the limit or not a number, and no fatigue
  -- was reported or observed. The duty is counted from the end of a long enough last rest in the shift,
  -- or else from the start of the shift. It asks for a handover, with escalation and continuity, exactly when
  -- work is refused during a Journey, it prompts a break whenever it refuses work, and it never
  -- finds a fault.
  pub fatigue-IsSound :
      (d : DriverFatigueSafetyDecision)
      → evaluate_driver_fatigue_safety i ≡ ok d
      → IsSound i d
        × (start : Option Date) × IsDutyStart i start
        × (d.observed_duty_minutes ≡ duty_minutes i.now start)
  unfolding decide_fatigue
  fatigue-IsSound d h =
      let (consistent, same) = fatigue_returns.1 d h in
      (
        rw (← same) (decided i (observed i) consistent.policy.limit_whole),
        effective_start i,
        duty_start i,
        rw (← same) refl,
      )

invalid_start :
    (q : Option Date) (now : Date) → duty_minutes now (later_start q (some invalid)) ≡ some nan
invalid_start none invalid = refl
invalid_start none (at n) = refl
invalid_start (some invalid) invalid = refl
invalid_start (some invalid) (at n) = refl
invalid_start (some (at r)) invalid = refl
invalid_start (some (at r)) (at n) = refl

not-less_eq-nan : (b : Number) → less_eq b nan ≡ false
not-less_eq-nan nan = refl
not-less_eq-nan _ = refl

nan_decision :
    (i : DriverFatigueSafetyInput)
    → i.driver_reported_fatigue ≡ false
    → i.drowsiness_signal_observed ≡ false
    → ((decide_fatigue i (some nan)).state ≡ clear)
      × ((decide_fatigue i (some nan)).new_offers_allowed ≡ true)
unfolding decide_fatigue
nan_decision i quiet awake = ground (
  arith,
  not-less_eq-nan i.policy.rest_required_after_duty_minutes,
  not-less_eq-nan i.policy.warning_after_duty_minutes,
)

-- A shift that started at an invalid date counts as no time on duty: without reports the decision on
-- it is CLEAR and allows new offers, whatever the limits are.
pub invalid_shift_clear :
    (i : DriverFatigueSafetyInput) (d : DriverFatigueSafetyDecision)
    → i.shift_started_at ≡ some invalid
    → i.driver_reported_fatigue ≡ false
    → i.drowsiness_signal_observed ≡ false
    → evaluate_driver_fatigue_safety i ≡ ok d
    → (d.state ≡ clear) × (d.new_offers_allowed ≡ true)
invalid_shift_clear i d shift quiet awake h =
    let same = ((fatigue_returns i).1 d h).1 in
    let start : observed i ≡ some nan = rw shift (invalid_start _ i.now) in
    subst (λ x. (x.state ≡ clear) × (x.new_offers_allowed ≡ true)) same
      (rw start (nan_decision i quiet awake))
