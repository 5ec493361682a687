-- ===== src/Telephony/Laws.antt =====
-- packages/domain/src/telephony-voice.ts: what a dialogue passes before a command, and what a call
-- may commit.
use dazat_mobility.Base.{Bool, true, ◌&&◌, List, [], ◌∷◌, ◌≡◌, includes, same-eq, same_refl, arith}
use dazat_mobility.Telephony.{
  VoiceDialogueState, VoiceDialogueState-discrete, backend_command, can_transition_voice_dialogue,
  confirmation, intent_detected, readback, required_fields_collection,
}

-- `path` follows allowed transitions of a dialogue.
unfoldable pub dialogue_ok : VoiceDialogueState → List VoiceDialogueState → Bool
dialogue_ok s [] = true
dialogue_ok s (t ∷ ts) = can_transition_voice_dialogue s t && dialogue_ok t ts

abbrev pub passes : List VoiceDialogueState → VoiceDialogueState → Bool
passes = includes VoiceDialogueState-discrete

into_confirmation :
    (s : VoiceDialogueState) → can_transition_voice_dialogue s confirmation ≡ true → s ≡ readback
unfolding can_transition_voice_dialogue
into_confirmation s h = ground arith

into_command :
    (s : VoiceDialogueState)
    → can_transition_voice_dialogue s backend_command ≡ true
    → s ≡ confirmation
unfolding can_transition_voice_dialogue
into_command s h = ground arith

into_readback :
    (s : VoiceDialogueState)
    → can_transition_voice_dialogue s readback ≡ true
    → s ≡ required_fields_collection
unfolding can_transition_voice_dialogue
into_readback s h = ground arith

passed_before :
    (p q s : VoiceDialogueState) (path : List VoiceDialogueState)
    → ((a : VoiceDialogueState) → can_transition_voice_dialogue a q ≡ true → a ≡ p)
    → dialogue_ok s path ≡ true
    → passes path q ≡ true
    → passes (s ∷ path) p ≡ true
unfolding dialogue_ok
passed_before p q s [] only c h = cc
passed_before p q s (t ∷ ts) only c h = ground (
  arith,
  same-eq VoiceDialogueState-discrete t q,
  only s,
  same_refl VoiceDialogueState-discrete p,
  passed_before p q t ts only,
)

-- A dialogue from INTENT_DETECTED that reaches BACKEND_COMMAND has passed CONFIRMATION, READBACK and
-- the collection of the required fields.
pub command_needs_readback :
    (path : List VoiceDialogueState)
    → dialogue_ok intent_detected path ≡ true
    → passes path backend_command ≡ true
    → (passes path confirmation ≡ true)
      × (passes path readback ≡ true)
      × (passes path required_fields_collection ≡ true)
unfolding VoiceDialogueState-discrete
command_needs_readback path c h =
    let confirmed =
      passed_before confirmation backend_command intent_detected path into_command c h in
    let read =
      passed_before readback confirmation intent_detected path into_confirmation c confirmed in
    (
      confirmed,
      read,
      passed_before required_fields_collection readback intent_detected path into_readback c read,
    )
