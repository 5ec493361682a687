-- ===== src/Examples/Calls.antt =====
-- A dialogue of the voice assistant.
use dazat_mobility.Base.{true, List, [], ◌∷◌, ◌≡◌, refl}
use dazat_mobility.Telephony.{
  VoiceDialogueState, VoiceDialogueState-discrete, backend_command, can_transition_voice_dialogue,
  confirmation, readback, required_fields_collection, result,
}
use dazat_mobility.Telephony.Laws.{dialogue_ok, passes, command_needs_readback}

-- The caller corrects a field after the first readback.
abbrev dialogue : List VoiceDialogueState
dialogue =
    required_fields_collection ∷ readback ∷ required_fields_collection ∷ readback ∷ confirmation
    ∷ backend_command ∷ result ∷ []

command_needs_readback_example :
    (passes dialogue confirmation ≡ true)
    × (passes dialogue readback ≡ true)
    × (passes dialogue required_fields_collection ≡ true)
unfolding dialogue_ok can_transition_voice_dialogue VoiceDialogueState-discrete
command_needs_readback_example = command_needs_readback dialogue refl refl
