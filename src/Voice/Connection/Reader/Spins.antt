-- ===== src/Voice/Connection/Reader/Spins.antt =====
-- How often the reader of a voice connection connects again, and what it waits between.
use vaidcord.Base.{
  ℕ, zero, suc, ◌≡◌, refl, ◌∙◌, Bool, true, false, Option, none, some, List, [], ◌∷◌, is_some,
}
use vaidcord.Base.Result.{ok}
use vaidcord.Voice.Connection.{
  VoiceGatewayConfig, closes, Socket, Effect, connected, sent, resume_frame, Connection, Services,
}
use vaidcord.Voice.Connection.Closing.{close_ws}
use vaidcord.Voice.Connection.Policy.{classify_voice_close_code, resume_action}
use vaidcord.Voice.Connection.Handshake.Resumes.{after_resume, attempt_reconnect-after_resume}
use vaidcord.Voice.Connection.Reader.{
  goes_on, read_socket, handle_close, after_reading, read_round, read_loop,
}
use vaidcord.Voice.Dave.Backend.{DaveCryptoBackend}

-- A socket that the other side closes before it says anything.
abbrev pub silent : Option ℕ → Socket
silent code = record { messages = []; ending = closes code; closed = false }

-- Connecting and RESUME, again and again, with nothing between.
abbrev pub resumes : ℕ → Effect → Effect → List Effect → List Effect
resumes zero connect resume trace = trace
resumes (suc n) connect resume trace = resumes n connect resume (resume ∷ connect ∷ trace)

module _ {S : Type 0} (config : VoiceGatewayConfig) (services : Services)
    (b : DaveCryptoBackend S) where
  -- A round that goes on, and the rounds behind it.
  pub read_loop_goes :
      (rounds later backoff : ℕ) (c c' : Connection S)
      → read_round config services b backoff c ≡ (goes_on later, c')
      → read_loop config services b (suc rounds) backoff c
        ≡ read_loop config services b rounds later c'
  unfolding read_loop
  read_loop_goes rounds later backoff c c' step = simp (read_loop, step)

  -- A socket at its end, closed with a code after which the connection resumes.
  pub read_round_at_end :
      (code : Option ℕ) (closed : Bool) (backoff : ℕ) (c : Connection S)
      → c.closing ≡ false
      → c.ws ≡ some (record (silent code) { closed = closed })
      → read_round config services b backoff c
        ≡ handle_close config services b 1 code
            (record c { ws = some (record (silent code) { closed = true }) })
  unfolding read_round read_socket after_reading
  read_round_at_end code closed backoff c k w = simp (read_round, k, w)

  spin_round :
      (code : Option ℕ) (backoff : ℕ) (c : Connection S)
      → classify_voice_close_code code ≡ resume_action
      → ((trace : List Effect) → services.ws_connect trace ≡ ok (silent code))
      → ((trace : List Effect) → services.send_json trace ≡ none)
      → c.closing ≡ false
      → c.ws ≡ some (silent code)
      → is_some c.ready ≡ true
      → is_some c.state.session_id ≡ true
      → read_round config services b backoff c ≡ (goes_on 1, after_resume config (silent code) c)
  unfolding handle_close close_ws
  spin_round code backoff c a w q k e r i =
      let c' = record c { ws = some (record (silent code) { closed = true }) } in
      read_round_at_end code false backoff c k e
      ∙ simp (
        handle_close,
        a,
        attempt_reconnect-after_resume config services b (silent code) c' r i refl (w c'.trace) q,
      )

  -- Where every socket that opens is closed at once with a code that is resumed, the reader of a
  -- connection that was ready once goes on for every number of rounds: it connects and sends RESUME
  -- in each, waits in none, and never identifies again.
  pub read_loop_spins :
      (rounds : ℕ) (code : Option ℕ) (backoff : ℕ) (c : Connection S)
      → classify_voice_close_code code ≡ resume_action
      → ((trace : List Effect) → services.ws_connect trace ≡ ok (silent code))
      → ((trace : List Effect) → services.send_json trace ≡ none)
      → c.closing ≡ false
      → c.ws ≡ some (silent code)
      → is_some c.ready ≡ true
      → is_some c.state.session_id ≡ true
      → let (progress, c') = read_loop config services b (suc rounds) backoff c in
        (progress ≡ goes_on 1)
        × (c'.trace
            ≡ resumes
                (suc rounds)
                (connected c.server.endpoint config.version)
                (sent (resume_frame c.guild_id c.state.session_id c.server.token c.last_sequence))
                c.trace)
  unfolding read_loop
  read_loop_spins zero code backoff c a w q k e r i =
      let step = spin_round code backoff c a w q k e r i in
      rw (read_loop_goes zero 1 backoff c (after_resume config (silent code) c) step) (refl, refl)
  read_loop_spins (suc n) code backoff c a w q k e r i =
      let step = spin_round code backoff c a w q k e r i in
      let later = read_loop_spins n code 1 (after_resume config (silent code) c) a w q k refl r i in
      let c' = after_resume config (silent code) c in
      rw (read_loop_goes (suc n) 1 backoff c c' step) later
