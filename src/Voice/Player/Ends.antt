-- ===== src/Voice/Player/Ends.antt =====
-- How a player that ends leaves the connection.
use vaidcord.Base.{ℕ, ◌≡◌, refl, true, false, Option, none, List, ◌⊎◌, inl, inr, arith}
use vaidcord.Base.Result.{Raised, Result, ok, err}
use vaidcord.Voice.Player.{
  Effect, speaking, silence, AudioPlayer, Services, Turn, Progress, ended, waits, goes_on, note,
  set_speaking, send_silence, play, error_of, trail, finish, conclude, run,
}
use vaidcord.Voice.Player.Steps.{last_flags}

-- It is done, the encoder is closed, and the last flags told are none.
abbrev pub IsOver : AudioPlayer → Type 0
IsOver p = (p.done ≡ true) × (p.encoder ≡ false) × (last_flags p.trace ≡ 0)

module _ (services : Services) (speaks : (trace : List Effect) → services.set_speaking trace ≡ none)
    (sends : (trace : List Effect) → services.send_silence_frames trace ≡ none) where
  set_speaking_done :
      (flags : ℕ) (p : AudioPlayer)
      → set_speaking services flags p ≡ (ok tt, note (speaking flags) p)
  unfolding set_speaking
  set_speaking_done flags p = simp (set_speaking, speaks p.trace)

  trail_done : (p : AudioPlayer) → trail services true p ≡ note (speaking 0) (note silence p)
  unfolding trail send_silence
  trail_done p = simp (trail, send_silence, sends p.trace, set_speaking_done 0 (note silence p))

  finish-IsOver : (error : Option Raised) (p : AudioPlayer) → IsOver (finish services error true p)
  unfolding finish
  finish-IsOver error p =
      let e = trail_done (record p { error = error }) in simp (finish, e) (ground arith)

  conclude-IsOver :
      (r : Result Progress) (p : AudioPlayer)
      → ((conclude services (r, p)).0 ≡ false) ⊎ IsOver (conclude services (r, p)).1
  conclude-IsOver (ok waits) p = inl refl
  conclude-IsOver (ok goes_on) p = inl refl
  conclude-IsOver (ok ended) p = inr (finish-IsOver none p)
  conclude-IsOver (err e) p = inr (finish-IsOver (error_of services {A = Progress} (err e)) p)

  -- Where telling the flags and sending silence do not raise: a player that is not left waiting or
  -- playing is done, has closed its encoder and has told the connection that it no longer speaks,
  -- whether the source ran out, it was stopped, or reading, encoding or sending raised.
  pub run-IsOver :
      (turns : List Turn) (p : AudioPlayer)
      → ((run services turns p).0 ≡ false) ⊎ IsOver (run services turns p).1
  unfolding run
  run-IsOver turns p =
      let flags = services.speaking_flags in
      let p1 = note (speaking flags) p in
      simp (run, set_speaking_done flags p)
        (conclude-IsOver (play services turns p1).0 (play services turns p1).1)
