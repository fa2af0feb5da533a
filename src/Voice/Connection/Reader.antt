-- ===== src/Voice/Connection/Reader.antt =====
-- `_read_loop` of a voice connection. It is run for a number of rounds: a round reads a socket to its
-- end and reconnects. Rounds of the heartbeat's task are not interleaved.
pub mod Spins
pub mod Delays
use vaidcord.Base.{
  ℕ, zero, suc, ◌*◌, Bool, true, false, ◌==◌, Option, none, some, List, [], ◌∷◌, if◌then◌else◌, leb,
}
use vaidcord.Base.Action.{Action, pure, ◌>>=◌}
use vaidcord.Base.Result.{Raised, Result, ok, err}
use vaidcord.Voice.Connection.{
  VoiceGatewayConfig, Message, text, binary, other_message, Ending, closes, stays_open, Socket,
  slept, Connection, Services, Method, note,
}
use vaidcord.Voice.Connection.Handshake.{drop_messages, close_peer, attempt_reconnect}
use vaidcord.Voice.Connection.Policy.{
  VoiceCloseAction, resume_action, rejoin_action, fatal_action, classify_voice_close_code, catches,
}
use vaidcord.Voice.Connection.Payloads.{handle_ws_payload, handle_binary_payload}
use vaidcord.Voice.Dave.Backend.{DaveCryptoBackend}

-- How far the rounds bring the task: it has returned, it waits for the socket, it has been cancelled
-- by what it awaited, or it would go on with a delay for the next failure.
pub data Progress : Type 0 where
  returned waits cancelled : Progress
  goes_on : ℕ → Progress

-- What reading a socket ends with. `ws.close_code` is none where a handler has raised, since the socket
-- is still open there.
pub data Reading : Type 0 where
  ended : Option ℕ → Reading
  waiting interrupted crashed : Reading

-- `min(backoff * 2, 30.0)`
abbrev pub next_backoff : ℕ → ℕ
next_backoff backoff = if leb (backoff * 2) 30 then backoff * 2 else 30

module _ {S : Type 0} (config : VoiceGatewayConfig) (services : Services)
    (b : DaveCryptoBackend S) where
  abbrev pub read_end : Ending → Connection S → Reading × Connection S
  read_end stays_open c = (waiting, record c { ws = drop_messages [] c.ws })
  read_end (closes code) c = (ended code, record c { ws = close_peer c.ws })

  -- `async for message in ws`
  unfoldable pub read_socket : Ending → List Message → Connection S → Reading × Connection S
  unfolding handle_ws_payload handle_binary_payload
  read_socket ending [] c = read_end ending c
  read_socket ending (text p ∷ ms) c =
      let (r, c') = handle_ws_payload b services p (record c { ws = drop_messages ms c.ws }) in
      elim r [
        | ok u ↦ read_socket ending ms c'
        | err e ↦ (if catches e then crashed else interrupted, c')
      ]
  read_socket ending (binary bytes ∷ ms) c =
      read_socket ending ms
        (handle_binary_payload b bytes (record c { ws = drop_messages ms c.ws }))
  read_socket ending (other_message ∷ ms) c = read_socket ending ms c

  abbrev pub after_failure : ℕ → Raised → Connection S → Progress × Connection S
  after_failure backoff e c =
      if catches e then (goes_on (next_backoff backoff), note (slept backoff) c) else (cancelled, c)

  -- The rest of a round behind the socket's end.
  unfoldable pub handle_close : ℕ → Option ℕ → Connection S → Progress × Connection S
  unfolding attempt_reconnect
  handle_close backoff code c = elim (classify_voice_close_code code) [
    | fatal_action ↦ (returned, record c { closing = true })
    | action ↦
        let (r, c') = attempt_reconnect config services b action c in
        elim r [ ok u ↦ (goes_on 1, c') | err e ↦ after_failure backoff e c' ]
  ]

  unfoldable pub after_reading : ℕ → Reading → Connection S → Progress × Connection S
  unfolding handle_close
  after_reading backoff waiting c = (waits, c)
  after_reading backoff interrupted c = (cancelled, c)
  after_reading backoff (ended code) c = if c.closing then (returned, c) else handle_close 1 code c
  after_reading backoff crashed c = if c.closing then (returned, c) else handle_close backoff none c

  unfoldable pub read_round : ℕ → Connection S → Progress × Connection S
  unfolding read_socket after_reading
  read_round backoff c = if c.closing then (returned, c) else elim c.ws [
    | none ↦ (returned, c)
    | some s ↦ let (r, c') = read_socket s.ending s.messages c in after_reading backoff r c'
  ]

  -- `_read_loop` from a delay on.
  unfoldable pub read_loop : ℕ → ℕ → Connection S → Progress × Connection S
  unfolding read_round
  read_loop zero backoff c = (goes_on backoff, c)
  read_loop (suc rounds) backoff c =
      let (p, c') = read_round backoff c in
      elim p [
        | goes_on later ↦ read_loop rounds later c'
        | returned ↦ (returned, c')
        | waits ↦ (waits, c')
        | cancelled ↦ (cancelled, c')
      ]
