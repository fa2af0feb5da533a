-- ===== src/Voice/Connection/Handshake/Resumes.antt =====
-- What resuming a voice connection waits for.
use vaidcord.Base.{
  ◌≡◌, refl, ap, Bool, true, false, not, none, some, List, ◌∷◌, arith, ◌∙◌, is_some,
}
use vaidcord.Base.Action.{>>=-at, ◌>>=◌}
use vaidcord.Base.Result.{ok}
use vaidcord.Voice.Connection.{
  VoiceGatewayConfig, Socket, Effect, connected, sent, resume_frame, Connection, Services, send,
  note, is_open,
}
use vaidcord.Voice.Connection.Closing.{close_ws}
use vaidcord.Voice.Connection.Handshake.{
  open_ws, resume, resume_or_identify, reopen, receive_until, is_resumed, reconnect_transport,
  attempt_reconnect,
}
use vaidcord.Voice.Connection.Policy.{resume_action}
use vaidcord.Voice.Dave.Backend.{DaveCryptoBackend}

-- The connection behind a resume over a new socket: RESUME is sent and no message of the socket is
-- read.
abbrev pub after_resume : {S : Type 0} → VoiceGatewayConfig → Socket → Connection S → Connection S
after_resume config s c = record c {
  ws = some s;
  resumed_event = false;
  trace =
      sent (resume_frame c.guild_id c.state.session_id c.server.token c.last_sequence)
      ∷ connected c.server.endpoint config.version
      ∷ c.trace;
}

module _ {S : Type 0} (config : VoiceGatewayConfig) (services : Services)
    (b : DaveCryptoBackend S) where
  receive_until_done :
      (done : Connection S → Bool) (c : Connection S)
      → done c ≡ true
      → receive_until config services b done c ≡ (ok tt, c)
  unfolding receive_until
  receive_until_done done c h = rw (receive_until, h) refl

  resume_sends :
      (c : Connection S)
      → is_open c.ws ≡ true
      → services.send_json c.trace ≡ none
      → resume config services b c ≡ (
        ok tt,
        note (sent (resume_frame c.guild_id c.state.session_id c.server.token c.last_sequence)) c,
      )
  unfolding resume send
  resume_sends c o q = simp (resume, send, o, q)

  open_ws_opens :
      (s : Socket) (c : Connection S)
      → services.ws_connect c.trace ≡ ok s
      → open_ws config services b c
        ≡ (ok tt, note (connected c.server.endpoint config.version) (record c { ws = some s }))
  unfolding open_ws
  open_ws_opens s c w = simp (open_ws, w)

  reopen-after_resume :
      (s : Socket) (c : Connection S)
      → is_some c.ready ≡ true
      → is_some c.state.session_id ≡ true
      → s.closed ≡ false
      → services.ws_connect c.trace ≡ ok s
      → ((trace : List Effect) → services.send_json trace ≡ none)
      → reopen config services b true c ≡ (ok tt, after_resume config s c)
  unfolding reopen resume_or_identify
  reopen-after_resume s c r i o w q =
      let c1 = note (connected c.server.endpoint config.version) (record c { ws = some s }) in
      let c2 = record c1 { resumed_event = false } in
      let first : resume_or_identify config services b true c1
          ≡ (resume config services b >>= λ u. receive_until config services b is_resumed) c2 =
        simp (resume_or_identify, i) in
      >>=-at (open_ws config services b) (λ u. resume_or_identify config services b true) c tt c1
        (open_ws_opens s c w)
      ∙ first
      ∙ >>=-at (resume config services b) (λ u. receive_until config services b is_resumed) c2 tt
          (after_resume config s c) (resume_sends c2 (ap not o) (q c2.trace))
      ∙ receive_until_done is_resumed (after_resume config s c) r

  -- A connection that was ready once and has a session: where a socket opens and RESUME is sent,
  -- resuming returns before it reads a single message of that socket, whatever they are and whatever
  -- the socket ends with, and the fresh IDENTIFY behind a failed resume is not reached.
  pub attempt_reconnect-after_resume :
      (s : Socket) (c : Connection S)
      → is_some c.ready ≡ true
      → is_some c.state.session_id ≡ true
      → s.closed ≡ false
      → services.ws_connect (close_ws c).trace ≡ ok s
      → ((trace : List Effect) → services.send_json trace ≡ none)
      → attempt_reconnect config services b resume_action c
        ≡ (ok tt, after_resume config s (close_ws c))
  unfolding attempt_reconnect reconnect_transport close_ws
  attempt_reconnect-after_resume s c r i o w q =
      let e = reopen-after_resume s (close_ws c) (ground (arith, r)) (ground (arith, i)) o w q in
      simp (attempt_reconnect, reconnect_transport, e)
