-- ===== src/Voice/Connection/Policy.antt =====
-- What a voice connection decides by a close code, an exception or the modes that are offered:
-- `classify_voice_close_code` of connection.py and `VoiceReady.select_mode` of models.py.
use Prim.Native.String.{String}
use vaidcord.Base.{
  ℕ, Bool, true, false, ◌||◌, Option, none, some, List, [], ◌∷◌, if◌then◌else◌, contains,
}
use vaidcord.Base.Names.{name_key}
use vaidcord.Base.Result.{Raised, Result, ok, err, runtime_error, cancelled_error}
use vaidcord.Voice.Connection.{VoiceGatewayConfig, VoiceReady}

-- What to do when the websocket closes with a code: resume, rejoin or fatal.
pub data VoiceCloseAction : Type 0 where
  resume_action rejoin_action fatal_action : VoiceCloseAction

abbrev pub fatal_voice_close_codes : List ℕ
fatal_voice_close_codes = 4001 ∷ 4002 ∷ 4003 ∷ 4004 ∷ 4005 ∷ 4011 ∷ 4012 ∷ 4014 ∷ 4016 ∷ 4017 ∷ []

abbrev pub rejoin_voice_close_codes : List ℕ
rejoin_voice_close_codes = 4006 ∷ 4009 ∷ []

unfoldable pub classify_voice_close_code : Option ℕ → VoiceCloseAction
classify_voice_close_code none = resume_action
classify_voice_close_code (some code) =
    if contains code fatal_voice_close_codes
    then fatal_action
    else (if contains code rejoin_voice_close_codes then rejoin_action else resume_action)

abbrev pub contains_name : String → List String → Bool
contains_name name [] = false
contains_name name (n ∷ names) = name_key.same n name || contains_name name names

-- The first preferred mode that is offered.
unfoldable pub preferred : List String → List String → Option String
preferred modes [] = none
preferred modes (m ∷ ms) = elim (contains_name m modes) [
  | true ↦ some m
  | false ↦ preferred modes ms
]

abbrev pub first_mode : List String → Result String
first_mode [] = err runtime_error
first_mode (m ∷ ms) = ok m

-- `VoiceReady.select_mode`
unfoldable pub select_mode : VoiceGatewayConfig → VoiceReady → Result String
unfolding preferred
select_mode config r = elim (preferred r.modes config.preferred_modes) [
  | some m ↦ ok m
  | none ↦ first_mode r.modes
]

-- `except Exception`, which does not catch a cancellation.
abbrev pub catches : Raised → Bool
catches cancelled_error = false
catches e = true
