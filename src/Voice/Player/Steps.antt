-- ===== src/Voice/Player/Steps.antt =====
-- What the parts of a player's turn do to its announced flags.
use vaidcord.Base.{
  ℕ, ◌+◌, ◌≡◌, refl, Bool, true, false, not, Option, List, [], ◌∷◌, arith, inl, inr,
}
use vaidcord.Base.Action.{Action, pure, >>=-ends, >>=-ok, >>=-err, ◌>>=◌, ◌>>◌}
use vaidcord.Base.Bytes.{Bytes}
use vaidcord.Base.Result.{Raised, Result, ok, err, Result-cases}
use vaidcord.Voice.Player.{
  Control, pause, resume, stop, Effect, speaking, frame, asked, AudioPlayer, Services, Progress,
  ended, waits, goes_on, control, control_all, set_speaking, send_silence, encode, send_frame,
  play_read, play_frame, trail, finish,
}

-- The flags that were told last, the newest effect first.
abbrev pub last_flags : List Effect → ℕ
last_flags [] = 0
last_flags (speaking flags ∷ trace) = flags
last_flags (e ∷ trace) = last_flags trace

abbrev pub frames : List Effect → ℕ
frames [] = 0
frames (frame packet ∷ trace) = frames trace + 1
frames (e ∷ trace) = frames trace

-- The last call of `pause`, `resume` or `stop` was a pause.
abbrev pub is_paused : List Effect → Bool
is_paused [] = false
is_paused (asked pause ∷ trace) = true
is_paused (asked resume ∷ trace) = false
is_paused (asked stop ∷ trace) = false
is_paused (e ∷ trace) = is_paused trace

-- Every frame was sent while the flags were told and no pause stood.
abbrev pub Announced : ℕ → List Effect → Type 0
Announced flags [] = Unit {0}
Announced flags (frame packet ∷ trace) =
    (last_flags trace ≡ flags) × (is_paused trace ≡ false) × Announced flags trace
Announced flags (e ∷ trace) = Announced flags trace

abbrev pub Good : ℕ → AudioPlayer → Type 0
Good flags p =
    Announced flags p.trace
    × (p.sent_frames ≡ frames p.trace)
    × (p.resumed ≡ not (is_paused p.trace))

abbrev pub Ready : ℕ → AudioPlayer → Type 0
Ready flags p = Good flags p × (last_flags p.trace ≡ flags)

abbrev pub Unpaused : ℕ → AudioPlayer → Type 0
Unpaused flags p = Ready flags p × (p.resumed ≡ true)

-- How a step that may go on leaves a player.
abbrev pub Stands : ℕ → Result Progress → AudioPlayer → Type 0
Stands flags (ok goes_on) p = Unpaused flags p
Stands flags (ok ended) p = Good flags p
Stands flags (ok waits) p = Good flags p
Stands flags (err e) p = Good flags p

pub control_all_keeps :
    (flags : ℕ) (cs : List Control) (p : AudioPlayer)
    → Good flags p
    → Good flags (control_all cs p) × (last_flags (control_all cs p).trace ≡ last_flags p.trace)
unfolding control
control_all_keeps flags [] p h = (h, refl)
control_all_keeps flags (pause ∷ cs) p (a, n, r) =
    control_all_keeps flags cs (control p pause) (a, n, refl)
control_all_keeps flags (resume ∷ cs) p (a, n, r) =
    control_all_keeps flags cs (control p resume) (a, n, refl)
control_all_keeps flags (stop ∷ cs) p (a, n, r) =
    control_all_keeps flags cs (control p stop) (a, n, refl)

module _ (services : Services) (flags : ℕ) where
  -- Any other effect than a frame.
  pub set_speaking-Good :
      (told : ℕ) (p : AudioPlayer) → Good flags p → Good flags (set_speaking services told p).1
  unfolding set_speaking
  set_speaking-Good told p h = ground (arith, h)

  pub set_speaking_tells :
      (told : ℕ) (p : AudioPlayer)
      → (set_speaking services told p).0 ≡ ok tt
      → last_flags (set_speaking services told p).1.trace ≡ told
  unfolding set_speaking
  set_speaking_tells told p h = ground (arith, h)

  pub send_silence-Good : (p : AudioPlayer) → Good flags p → Good flags (send_silence services p).1
  unfolding send_silence
  send_silence-Good p h = ground (arith, h)

  encode_keeps :
      (bytes : Bytes) (p : AudioPlayer)
      → ((encode services bytes p).1.trace ≡ p.trace)
        × ((encode services bytes p).1.sent_frames ≡ p.sent_frames)
        × ((encode services bytes p).1.resumed ≡ p.resumed)
  unfolding encode
  encode_keeps bytes p = ground arith

  send_frame-Unpaused :
      (packet : Bytes) (p : AudioPlayer)
      → Unpaused flags p
      → Unpaused flags (send_frame services packet p).1
  unfolding send_frame
  send_frame-Unpaused packet p h = ground (arith, h)

  trail-Good :
      (started : Bool) (p : AudioPlayer) → Good flags p → Good flags (trail services started p)
  unfolding trail
  trail-Good false p h = h
  trail-Good true p h =
      >>=-ends (send_silence services) (λ u. set_speaking services 0) p (Good flags)
        (λ e k. send_silence-Good p h)
        (λ u k. set_speaking-Good 0 (send_silence services p).1 (send_silence-Good p h))

  pub finish-Good :
      (error : Option Raised) (started : Bool) (p : AudioPlayer)
      → Good flags p
      → Good flags (finish services error started p)
  unfolding finish
  finish-Good error started p h = ground (arith, trail-Good started (record p { error = error }) h)

  pub bind-Stands :
      {A : Type 0} (m : Action AudioPlayer A) (f : A → Action AudioPlayer Progress)
      (p : AudioPlayer)
      → Good flags (m p).1
      → ((a : A) → (m p).0 ≡ ok a → Stands flags (f a (m p).1).0 (f a (m p).1).1)
      → Stands flags ((m >>= f) p).0 ((m >>= f) p).1
  bind-Stands m f p good next = elim (Result-cases (m p).0) [
    | inl (a, e) ↦ rw (>>=-ok m f p a e) (next a e)
    | inr (x, e) ↦ rw (>>=-err m f p x e) good
  ]

  -- The sending half of `play_frame`.
  send_encoded-Stands :
      (bytes : Bytes) (p : AudioPlayer)
      → Unpaused flags p
      → let (r, p') =
          (do packet ← encode services bytes; send_frame services packet; pure goes_on) p in
        Stands flags r p'
  send_encoded-Stands bytes p h =
      let (t, n, r) = encode_keeps bytes p in
      let p1 = (encode services bytes p).1 in
      let still : Unpaused flags p1 = rw (t, n, r) h in
      bind-Stands (encode services bytes) (λ packet. send_frame services packet >> pure goes_on) p
        still.0.0
        (λ packet k.
          bind-Stands (send_frame services packet) (λ u. pure goes_on) p1
            (send_frame-Unpaused packet p1 still).0.0 (λ u q. send_frame-Unpaused packet p1 still))

  play_read-Stands :
      (bytes : Bytes) (p : AudioPlayer)
      → Unpaused flags p
      → Stands flags (play_read services bytes p).0 (play_read services bytes p).1
  unfolding play_read
  play_read-Stands [] p h = h.0.0
  play_read-Stands (b ∷ bytes) p h = send_encoded-Stands (b ∷ bytes) p h

  pub play_frame-Stands :
      (p : AudioPlayer)
      → Unpaused flags p
      → Stands flags (play_frame services p).0 (play_frame services p).1
  unfolding play_frame
  play_frame-Stands p h = elim (Result-cases (services.read p.trace)) [
    | inr (e, k) ↦ rw (play_frame, k) h.0.0
    | inl (bytes, k) ↦ rw (play_frame, k) (play_read-Stands bytes p h)
  ]
