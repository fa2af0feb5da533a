-- ===== src/Voice/Connection/Reader/Delays.antt =====
-- What the reader of a voice connection waits where no socket opens.
use vaidcord.Base.{ℕ, zero, suc, ◌≡◌, refl, ap, ◌∙◌, Bool, true, false, Option, some, List, ◌∷◌}
use vaidcord.Base.Action.{>>=-err}
use vaidcord.Base.Result.{Raised, Result, err}
use vaidcord.Voice.Connection.{
  VoiceGatewayConfig, Effect, slept, Connection, Services, is_open, note,
}
use vaidcord.Voice.Connection.Closing.{close_ws}
use vaidcord.Voice.Connection.Handshake.{
  open_ws, reopen, reconnect_transport, attempt_reconnect, resume_or_identify,
}
use vaidcord.Voice.Connection.Policy.{classify_voice_close_code, resume_action, catches}
use vaidcord.Voice.Connection.Reader.{goes_on, handle_close, read_round, read_loop}
use vaidcord.Voice.Connection.Reader.Spins.{silent, read_round_at_end, read_loop_goes}
use vaidcord.Voice.Dave.Backend.{DaveCryptoBackend}

abbrev pub pauses : ℕ → List Effect → List Effect
pauses zero trace = trace
pauses (suc n) trace = pauses n (slept 1 ∷ trace)

module _ {S : Type 0} (config : VoiceGatewayConfig) (services : Services)
    (b : DaveCryptoBackend S) where
  close_ws_closed : (c : Connection S) → is_open c.ws ≡ false → close_ws c ≡ c
  unfolding close_ws
  close_ws_closed c h = simp (close_ws, h)

  open_ws_refused :
      (e : Raised) (c : Connection S)
      → services.ws_connect c.trace ≡ err e
      → open_ws config services b c ≡ (err e, c)
  unfolding open_ws
  open_ws_refused e c w = simp (open_ws, w)

  reopen_refused :
      (wants_resume : Bool) (e : Raised) (c : Connection S)
      → services.ws_connect c.trace ≡ err e
      → reopen config services b wants_resume c ≡ (err e, c)
  unfolding reopen
  reopen_refused wants_resume e c w =
      let step = open_ws_refused e c w in
      >>=-err (open_ws config services b) (λ u. resume_or_identify config services b wants_resume) c
        e (ap (λ (r : Result (Unit {0}) × Connection S). r.0) step)
      ∙ ap (λ (r : Result (Unit {0}) × Connection S). (err e, r.1)) step

  reconnect_transport_refused :
      (wants_resume : Bool) (e : Raised) (code : Option ℕ) (c : Connection S)
      → ((trace : List Effect) → services.ws_connect trace ≡ err e)
      → c.ws ≡ some (record (silent code) { closed = true })
      → reconnect_transport config services b wants_resume c ≡ (err e, c)
  unfolding reconnect_transport
  reconnect_transport_refused wants_resume e code c w h =
      simp (reconnect_transport, close_ws_closed c (ap is_open h))
        (reopen_refused wants_resume e c (w c.trace))

  delay_round :
      (e : Raised) (code : Option ℕ) (closed : Bool) (backoff : ℕ) (c : Connection S)
      → catches e ≡ true
      → classify_voice_close_code code ≡ resume_action
      → ((trace : List Effect) → services.ws_connect trace ≡ err e)
      → c.closing ≡ false
      → c.ws ≡ some (record (silent code) { closed = closed })
      → read_round config services b backoff c ≡ (
        goes_on 2,
        note (slept 1) (record c { ws = some (record (silent code) { closed = true }) }),
      )
  unfolding handle_close attempt_reconnect
  delay_round e code closed backoff c x a w k h =
      let c' = record c { ws = some (record (silent code) { closed = true }) } in
      let again = λ (r : Bool). reconnect_transport_refused r e code c' w refl in
      read_round_at_end config services b code closed backoff c k h
      ∙ simp (handle_close, a, attempt_reconnect, again true, again false, x)

  -- A connection whose socket was closed with a code that is resumed, where no other opens: behind
  -- every failed round the reader waits one second, however many have failed before.
  pub read_loop-pauses :
      (rounds : ℕ) (e : Raised) (code : Option ℕ) (closed : Bool) (backoff : ℕ) (c : Connection S)
      → catches e ≡ true
      → classify_voice_close_code code ≡ resume_action
      → ((trace : List Effect) → services.ws_connect trace ≡ err e)
      → c.closing ≡ false
      → c.ws ≡ some (record (silent code) { closed = closed })
      → (read_loop config services b rounds backoff c).1.trace ≡ pauses rounds c.trace
  unfolding read_loop
  read_loop-pauses zero e code closed backoff c x a w k h = refl
  read_loop-pauses (suc n) e code closed backoff c x a w k h =
      let step = delay_round e code closed backoff c x a w k h in
      let c' = note (slept 1) (record c { ws = some (record (silent code) { closed = true }) }) in
      rw (read_loop_goes config services b n 2 backoff c c' step)
        (read_loop-pauses n e code true 2 c' x a w k refl)
