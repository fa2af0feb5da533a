-- ===== src/Errors/Codes.antt =====
-- What errors.py and the voice connection make of the same close codes.
use vaidcord.Base.{ℕ, ◌==◌, ◌≡◌, Bool, true, false, not, ◌&&◌, some, arith}
use vaidcord.Errors.{known_code, should_reconnect, voice_should_reconnect}
use vaidcord.Voice.Connection.Policy.{
  VoiceCloseAction, resume_action, rejoin_action, fatal_action, classify_voice_close_code,
}

abbrev pub is_fatal : VoiceCloseAction → Bool
is_fatal resume_action = false
is_fatal rejoin_action = false
is_fatal fatal_action = true

-- Of all close codes, 4014 is the only one after which both the voice connection and errors.py give up.
pub classify-voice_should_reconnect :
    (code : ℕ)
    → (is_fatal (classify_voice_close_code (some code)) && not (voice_should_reconnect code))
      ≡ (code == 4014)
unfolding voice_should_reconnect known_code should_reconnect classify_voice_close_code
classify-voice_should_reconnect code = ground arith
