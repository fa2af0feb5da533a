-- ===== src/Voice/Player.antt =====
-- `class AudioPlayer` in vaidcord-py/src/vaidcord/voice/player.py, with the calls of `pause`, `resume`
-- and `stop` that other tasks make meanwhile. The lengths of the pauses are left out.
pub mod Speaks
pub mod Steps
pub mod Ends
mod Examples
use vaidcord.Base.{
  ℕ, ◌+◌, Bool, true, false, Option, none, some, List, [], ◌∷◌, if◌then◌else◌, foldl,
}
use vaidcord.Base.Action.{Action, pure, raise, lift, gets, modify, ◌>>=◌, ◌>>◌}
use vaidcord.Base.Bytes.{Bytes}
use vaidcord.Base.Result.{Raised, Result, ok, err, cancelled_error}

pub data Control : Type 0 where
  pause resume stop : Control

-- What a player does: `set_speaking`, five frames of silence, a frame, the wait for a resume, and the
-- calls at the end; and the calls that others make of it.
pub data Effect : Type 0 where
  speaking : ℕ → Effect
  silence waited slept cleaned closed_encoder : Effect
  frame : Bytes → Effect
  asked : Control → Effect
  told_after : Option Raised → Effect

pub record AudioPlayer : Type 0 where
  pub stopped : Bool
  pub resumed : Bool
  pub done : Bool
  pub sent_frames : ℕ
  pub error : Option Raised
  pub encoder : Bool
  pub trace : List Effect

-- The connection, the source and the Opus encoder, by what was done before. `after` is whether a
-- callback is given.
pub record Services : Type 0 where
  pub speaking_flags : ℕ
  pub set_speaking : List Effect → Option Raised
  pub send_silence_frames : List Effect → Option Raised
  pub send_audio_frame : List Effect → Option Raised
  pub read : List Effect → Result Bytes
  pub is_opus : Bool
  pub new_encoder : List Effect → Option Raised
  pub encode : List Effect → Bytes → Result Bytes
  pub after : Bool

-- What others call before a turn of the loop, and while the turn waits for a resume.
pub record Turn : Type 0 where
  pub before : List Control
  pub waiting : List Control

-- How the loop stands: it has ended, it waits for a resume, or it would take another turn.
pub data Progress : Type 0 where
  ended waits goes_on : Progress

abbrev pub Method : Type 0 → Type 0
Method A = Action AudioPlayer A

abbrev pub note : Effect → AudioPlayer → AudioPlayer
note e p = record p { trace = e ∷ p.trace }

-- `pause`, `resume` and `stop`
unfoldable pub control : AudioPlayer → Control → AudioPlayer
control p pause = note (asked pause) (record p { resumed = false })
control p resume = note (asked resume) (record p { resumed = true })
control p stop = note (asked stop) (record p { stopped = true; resumed = true })

abbrev pub control_all : List Control → AudioPlayer → AudioPlayer
control_all [] p = p
control_all (c ∷ cs) p = control_all cs (control p c)

-- An effect that may raise instead.
abbrev pub act : Option Raised → Effect → Method (Unit {0})
act none e p = (ok tt, note e p)
act (some x) e p = (err x, p)

module _ (services : Services) where
  unfoldable pub set_speaking : ℕ → Method (Unit {0})
  set_speaking flags p = act (services.set_speaking p.trace) (speaking flags) p

  unfoldable pub send_silence : Method (Unit {0})
  send_silence p = act (services.send_silence_frames p.trace) silence p

  -- `_encode`: an encoder is made for the first frame that is not Opus already.
  unfoldable pub encode : Bytes → Method Bytes
  encode bytes p = elim services.is_opus [
    | true ↦ (ok bytes, p)
    | false ↦ elim p.encoder [
      | true ↦ (services.encode p.trace bytes, p)
      | false ↦ elim (services.new_encoder p.trace) [
        | some e ↦ (err e, p)
        | none ↦ (services.encode p.trace bytes, record p { encoder = true })
      ]
    ]
  ]

  unfoldable pub send_frame : Bytes → Method (Unit {0})
  send_frame packet p = elim (services.send_audio_frame p.trace) [
    | some e ↦ (err e, p)
    | none ↦
        (ok tt, note slept (note (frame packet) (record p { sent_frames = p.sent_frames + 1 })))
  ]

  -- An empty frame ends the loop.
  unfoldable pub play_read : Bytes → Method Progress
  unfolding encode send_frame
  play_read [] p = (ok ended, p)
  play_read (b ∷ bytes) p = (do packet ← encode (b ∷ bytes); send_frame packet; pure goes_on) p

  unfoldable pub play_frame : Method Progress
  unfolding play_read
  play_frame p = elim (services.read p.trace) [ err e ↦ (err e, p) | ok bytes ↦ play_read bytes p ]

  -- Behind the wait for a resume.
  unfoldable pub after_wait : Method Progress
  unfolding set_speaking
  after_wait p = elim p.resumed [
    | false ↦ (ok waits, p)
    | true ↦ elim p.stopped [
      | true ↦ (ok ended, p)
      | false ↦ (do set_speaking services.speaking_flags; pure goes_on) p
    ]
  ]

  -- A paused turn: silence, no speaking, and the wait.
  unfoldable pub rest : List Control → Method Progress
  unfolding send_silence set_speaking after_wait
  rest waiting = do
    send_silence
    set_speaking 0
    modify (λ p. control_all waiting (note waited p))
    after_wait

  abbrev pub unless_over : Method Progress → Progress → Method Progress
  unless_over next goes_on = next
  unless_over next ended = pure ended
  unless_over next waits = pure waits

  unfoldable pub pause_if_needed : List Control → Method Progress
  unfolding rest
  pause_if_needed waiting p = elim p.resumed [ true ↦ (ok goes_on, p) | false ↦ rest waiting p ]

  unfoldable pub turn : Turn → Method Progress
  unfolding pause_if_needed play_frame
  turn t p =
      let p' = control_all t.before p in
      elim p'.stopped [
        | true ↦ (ok ended, p')
        | false ↦ (do progress ← pause_if_needed t.waiting; unless_over play_frame progress) p'
      ]

  -- The `while` loop for a number of turns.
  unfoldable pub play : List Turn → Method Progress
  unfolding turn
  play [] p = (ok goes_on, p)
  play (t ∷ turns) p =
      let (r, p') = turn t p in
      elim r [
        | err e ↦ (err e, p')
        | ok progress ↦ elim progress [
          | goes_on ↦ play turns p'
          | ended ↦ (ok ended, p')
          | waits ↦ (ok waits, p')
        ]
      ]

  -- `except asyncio.CancelledError: raise` leaves the error none.
  abbrev pub error_of : {A : Type 0} → Result A → Option Raised
  error_of (ok a) = none
  error_of (err cancelled_error) = none
  error_of (err e) = some e

  -- `if started_speaking: …`, what it raises is logged.
  unfoldable pub trail : Bool → AudioPlayer → AudioPlayer
  unfolding send_silence set_speaking
  trail false p = p
  trail true p = ((do send_silence; set_speaking 0) p).1

  abbrev pub close_encoder : AudioPlayer → AudioPlayer
  close_encoder p = if p.encoder then note closed_encoder (record p { encoder = false }) else p

  -- The `finally` block. What `cleanup` and the callback raise is logged; a cancellation of the task
  -- while this block runs, which would leave the rest of it out, is not modelled.
  unfoldable pub finish : Option Raised → Bool → AudioPlayer → AudioPlayer
  unfolding trail
  finish error started p =
      let p' = record (close_encoder (note cleaned (trail started (record p { error = error })))) {
        done = true;
      } in
      if services.after then note (told_after error) p' else p'

  -- `_run`; a player that waits or would go on has not finished.
  abbrev pub conclude : Result Progress × AudioPlayer → Bool × AudioPlayer
  conclude (ok waits, p) = (false, p)
  conclude (ok goes_on, p) = (false, p)
  conclude (ok ended, p) = (true, finish none true p)
  conclude (err e, p) = (true, finish (error_of {A = Progress} (err e)) true p)

  unfoldable pub run : List Turn → AudioPlayer → Bool × AudioPlayer
  unfolding set_speaking play
  run turns p =
      let (r, p') = set_speaking services.speaking_flags p in
      elim r [
        | err e ↦ (true, finish (error_of {A = Progress} (err e)) false p')
        | ok u ↦ conclude (play turns p')
      ]
