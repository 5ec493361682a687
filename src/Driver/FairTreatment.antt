-- ===== src/Driver/FairTreatment.antt =====
-- packages/domain/src/driver-fair-treatment.ts.
use dazat_mobility.Base.{
  Bool, true, false, ◌&&◌, ◌||◌, not, Option, none, some, List, [], ◌∷◌, includes, is_empty, Date,
  Number, natural, less, is_integer,
}
use dazat_mobility.Base.Texts.{Text}
use dazat_mobility.Base.Results.{Result, ok, require, ◌>>◌}
use dazat_mobility.Dispatch.Availability.{DriverAvailabilityStatus, assigned}
use dazat_mobility.Journey.Status.{JourneyStatus}

pub data DriverOfferOutcome : Type 0 where
  accepted declined timed_out technical_failure withdrawn : DriverOfferOutcome
  driver_became_ineligible assigned_elsewhere : DriverOfferOutcome

pub record RatingFeedbackTreatment : Type 0 where
  pub accepted_as_feedback : Bool
  pub conduct_finding_created : Bool
  pub driver_restriction_created : Bool
  pub dispatch_priority_changed : Bool

pub data RatingError : Type 0 where
  rating_out_of_range : RatingError

unfoldable evaluate_rating_feedback : Number → Result RatingError RatingFeedbackTreatment
evaluate_rating_feedback rating = do
  require (is_integer rating && not (less rating (natural 1)) && not (less (natural 5) rating))
      rating_out_of_range
  ok (record {
    accepted_as_feedback = true;
    conduct_finding_created = false;
    driver_restriction_created = false;
    dispatch_priority_changed = false;
  })

pub data DriverComplaintStatus : Type 0 where
  allegation_recorded driver_response_pending assessment_pending : DriverComplaintStatus
  finding_recorded action_pending closed withdrawn : DriverComplaintStatus

unfoldable pub DriverComplaintStatus-discrete : Discrete DriverComplaintStatus
DriverComplaintStatus-discrete = hlevel

unfoldable complaint_transitions : DriverComplaintStatus → List DriverComplaintStatus
complaint_transitions allegation_recorded =
    driver_response_pending ∷ DriverComplaintStatus.withdrawn ∷ []
complaint_transitions driver_response_pending =
    assessment_pending ∷ DriverComplaintStatus.withdrawn ∷ []
complaint_transitions assessment_pending = finding_recorded ∷ DriverComplaintStatus.withdrawn ∷ []
complaint_transitions finding_recorded = action_pending ∷ closed ∷ []
complaint_transitions action_pending = closed ∷ []
complaint_transitions _ = []

unfoldable can_transition_driver_complaint : DriverComplaintStatus → DriverComplaintStatus → Bool
unfolding complaint_transitions DriverComplaintStatus-discrete
can_transition_driver_complaint from to =
    includes DriverComplaintStatus-discrete (complaint_transitions from) to

pub record ComplaintFinding : Type 0 where
  pub response_opportunity_provided : Bool
  pub assessment_present : Bool
  pub evidence_references : List Text
  pub authorised_independent_reviewer : Bool
  pub rating_only : Bool

unfoldable complaint_finding_may_be_recorded : ComplaintFinding → Bool
complaint_finding_may_be_recorded i =
    i.response_opportunity_provided
    && i.assessment_present
    && not (is_empty i.evidence_references)
    && i.authorised_independent_reviewer
    && not i.rating_only

pub record OfferOutcomeFairnessDecision : Type 0 where
  pub outcome : DriverOfferOutcome
  pub records_exact_outcome : Bool
  pub automatically_creates_misconduct : Bool
  pub acceptance_rate_penalty_applied : Bool
  pub dispatch_priority_penalty_applied : Bool
  pub requires_separate_reliability_review : Bool

-- Every outcome of the type is supported, so nothing is thrown.
unfoldable evaluate_offer_outcome_fairness : DriverOfferOutcome → OfferOutcomeFairnessDecision
evaluate_offer_outcome_fairness outcome = record {
  outcome = outcome;
  records_exact_outcome = true;
  automatically_creates_misconduct = false;
  acceptance_rate_penalty_applied = false;
  dispatch_priority_penalty_applied = false;
  requires_separate_reliability_review = false;
}

pub data ReliabilityCause : Type 0 where
  driver vehicle system provider traffic external undetermined : ReliabilityCause

pub record ReliabilityAttributionDecision : Type 0 where
  pub reliability_concern_supported : Bool
  pub creates_misconduct_finding : Bool
  pub needs_more_evidence : Bool

abbrev is_driver : ReliabilityCause → Bool
is_driver driver = true
is_driver _ = false

abbrev is_undetermined : ReliabilityCause → Bool
is_undetermined undetermined = true
is_undetermined _ = false

unfoldable evaluate_reliability_attribution :
    Bool → ReliabilityCause → List Text → ReliabilityAttributionDecision
evaluate_reliability_attribution accepted_commitment cause evidence = record {
  reliability_concern_supported = accepted_commitment && is_driver cause && not (is_empty evidence);
  creates_misconduct_finding = false;
  needs_more_evidence = is_empty evidence || is_undetermined cause;
}

pub record PrecautionaryRestriction : Type 0 where
  pub evidence_references : List Text
  pub narrowest_safe_scope : Bool
  pub review_due_at : Option Date
  pub guilt_finding_created : Bool

abbrev pub is_set : Option Date → Bool
is_set none = false
is_set (some _) = true

unfoldable precautionary_restriction_may_be_applied : PrecautionaryRestriction → Bool
precautionary_restriction_may_be_applied i =
    not (is_empty i.evidence_references)
    && i.narrowest_safe_scope
    && is_set i.review_due_at
    && not i.guilt_finding_created

pub record Appeal : Type 0 where
  pub evidence_references : List Text
  pub independent_from_original_decision : Bool
  pub reviewer_is_driver : Bool
  pub original_decision_history_preserved : Bool

unfoldable high_impact_appeal_may_be_resolved : Appeal → Bool
high_impact_appeal_may_be_resolved i =
    not (is_empty i.evidence_references)
    && i.independent_from_original_decision
    && not i.reviewer_is_driver
    && i.original_decision_history_preserved

pub record UnsafeTermination : Type 0 where
  pub actor_is_assigned_driver : Bool
  pub journey_status : JourneyStatus
  pub rider_conduct_case_persisted : Bool
  pub canonical_safety_event_persisted : Bool

-- The statuses from EN_ROUTE to ARRIVING; the text is one of the Journey statuses.
abbrev is_under_way : JourneyStatus → Bool
is_under_way JourneyStatus.assigned = false
is_under_way JourneyStatus.completed = false
is_under_way _ = true

unfoldable unsafe_journey_termination_may_proceed : UnsafeTermination → Bool
unsafe_journey_termination_may_proceed i =
    i.actor_is_assigned_driver
    && is_under_way i.journey_status
    && i.rider_conduct_case_persisted
    && i.canonical_safety_event_persisted

pub record BreakAfterTermination : Type 0 where
  pub from_availability : DriverAvailabilityStatus
  pub assignment_cancelled : Bool
  pub safety_termination_persisted : Bool
  pub passenger_continuity_opened : Bool

abbrev is_assigned : DriverAvailabilityStatus → Bool
is_assigned assigned = true
is_assigned _ = false

unfoldable pub driver_may_enter_break_after_unsafe_termination : BreakAfterTermination → Bool
driver_may_enter_break_after_unsafe_termination i =
    is_assigned i.from_availability
    && i.assignment_cancelled
    && i.safety_termination_persisted
    && i.passenger_continuity_opened

pub record DriverIncentive : Type 0 where
  pub versioned_rules : Bool
  pub visible_terms : List Text
  pub finance_approved : Bool
  pub evidence_references : List Text
  pub base_earning_separate : Bool
  pub acceptance_coercion_allowed : Bool
  pub fatigue_pressure_allowed : Bool
  pub secret_dispatch_priority_boost_allowed : Bool

unfoldable driver_incentive_may_be_published : DriverIncentive → Bool
driver_incentive_may_be_published i =
    i.versioned_rules
    && not (is_empty i.visible_terms)
    && i.finance_approved
    && not (is_empty i.evidence_references)
    && i.base_earning_separate
    && not i.acceptance_coercion_allowed
    && not i.fatigue_pressure_allowed
    && not i.secret_dispatch_priority_boost_allowed

pub record Offboarding : Type 0 where
  pub earnings_preserved : Bool
  pub disputes_preserved : Bool
  pub vehicle_return_obligations_preserved : Bool
  pub safety_history_preserved : Bool
  pub financial_history_preserved : Bool

unfoldable offboarding_history_is_preserved : Offboarding → Bool
offboarding_history_is_preserved i =
    i.earnings_preserved && i.disputes_preserved && i.vehicle_return_obligations_preserved
    && i.safety_history_preserved && i.financial_history_preserved
