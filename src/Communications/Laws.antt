-- ===== src/Communications/Laws.antt =====
-- The route of a communication (communications.ts).
use dazat_mobility.Base.{
  Bool, true, false, ◌&&◌, ◌||◌, not, List, [], ◌∷◌, includes, same, is_empty, some_of, ◌≡◌, refl,
  ◌↔◌, arith, includes-distinct, keep-keep, includes-map-keep, ◌∙◌,
}
use dazat_mobility.Communications.{
  CommunicationChannel, CommunicationChannel-discrete, CommunicationChannelCandidate,
  CommunicationRouteInput, routable, is_critical_purpose, is_marketing, is_urgent, is_contactless,
  is_call, is_unavailable, safe_channels, plan_communication_route,
}

-- A candidate that may carry the communication.
abbrev is_safe : CommunicationRouteInput → CommunicationChannelCandidate → Bool
is_safe i c =
    c.permission_allowed
    && (not c.compromised
        && (not (is_unavailable c.health)
            && ((is_contactless c.channel || c.contact_point_verified)
                && (not i.silent_assistance || not (is_call c.channel)))))

abbrev has : List CommunicationChannel → CommunicationChannel → Bool
has = includes CommunicationChannel-discrete

abbrev carries :
    CommunicationRouteInput → CommunicationChannel → CommunicationChannelCandidate → Bool
carries i ch c = is_safe i c && same CommunicationChannel-discrete c.channel ch

and-true : (b : Bool) → (b && true) ≡ b
and-true b = ground arith

-- The safe channels are exactly those of the candidates that may carry the communication.
safe_channels-has :
    (i : CommunicationRouteInput) (ch : CommunicationChannel)
    → has (safe_channels i) ch ≡ some_of (carries i ch) i.candidates
unfolding safe_channels
safe_channels-has i ch =
    includes-distinct CommunicationChannel-discrete [] _ ch
    ∙ rw (keep-keep, keep-keep, keep-keep, keep-keep, includes-map-keep) (and-true _)

empty-has :
    (cs : List CommunicationChannel) (ch : CommunicationChannel)
    → is_empty cs ≡ true
    → has cs ch ≡ false
empty-has [] ch h = refl
empty-has (c ∷ cs) ch h = cc

-- A planned route uses a channel exactly when some candidate for it may carry the communication
-- (permitted, not compromised, not unavailable, authenticated or verified, and no call under silent
-- assistance), consent is there if it is marketing, and quiet hours do not hold it back. Then the
-- state is ROUTABLE, and a fallback is required exactly for what is critical.
pub route_uses :
    (i : CommunicationRouteInput) (ch : CommunicationChannel)
    → let d = plan_communication_route i in
      let critical = is_urgent i.priority || is_critical_purpose i.purpose in
      ((has d.channels ch ≡ true) ↔ (
        (some_of (carries i ch) i.candidates ≡ true)
        × (is_marketing i.purpose && not i.marketing_consent_granted ≡ false)
        × (i.quiet_hours_active && not critical ≡ false)))
      × (has d.channels ch ≡ true → (d.state ≡ routable) × (d.fallback_required ≡ critical))
unfolding plan_communication_route
route_uses i ch =
    let exact = safe_channels-has i ch in
    let nothing = empty-has (safe_channels i) ch in ground arith
