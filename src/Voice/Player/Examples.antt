-- ===== src/Voice/Player/Examples.antt =====
-- A player at concrete inputs: a source of two frames that raises at the third.
use vaidcord.Base.{◌≡◌, refl, ◌⊎◌, true, false, none, List, [], ◌∷◌, ◌==◌, if◌then◌else◌}
use vaidcord.Base.Result.{ok, err, value_error}
use vaidcord.Voice.Player.{pause, resume, AudioPlayer, Services, Turn, run}
use vaidcord.Voice.Player.Ends.{IsOver, run-IsOver}
use vaidcord.Voice.Player.Steps.{frames}

abbrev services : Services
services = record {
  speaking_flags = 1;
  set_speaking = λ trace. none;
  send_silence_frames = λ trace. none;
  send_audio_frame = λ trace. none;
  read = λ trace. if frames trace == 2 then err value_error else ok (1 ∷ 2 ∷ []);
  is_opus = false;
  new_encoder = λ trace. none;
  encode = λ trace bytes. ok bytes;
  after = true;
}

abbrev quiet : Turn
quiet = record { before = []; waiting = [] }

-- The second turn is paused and resumed.
abbrev turns : List Turn
turns = quiet ∷ record { before = pause ∷ []; waiting = resume ∷ [] } ∷ quiet ∷ []

abbrev player : AudioPlayer
player = record {
  stopped = false;
  resumed = true;
  done = false;
  sent_frames = 0;
  error = none;
  encoder = false;
  trace = [];
}

run-IsOver_example : ((run services turns player).0 ≡ false) ⊎ IsOver (run services turns player).1
run-IsOver_example = run-IsOver services (λ trace. refl) (λ trace. refl) turns player
