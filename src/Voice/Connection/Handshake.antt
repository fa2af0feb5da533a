-- ===== src/Voice/Connection/Handshake.antt =====
-- Opening a voice connection and reconnecting it: `connect`, `identify`, `resume`, `reconnect`,
-- `migrate_to`, `_reconnect_transport`, `_rejoin`, `_attempt_reconnect`, `_receive_until`,
-- `_establish_udp_transport`, `set_speaking` and `close`, with `VoiceReady.select_mode`.
pub mod Resumes
pub mod Quiet
pub mod Waits
pub mod Opens
use Prim.Native.String.{String}
use vaidcord.Base.{
  ℕ, Bool, true, false, not, ◌&&◌, ◌||◌, Option, none, some, List, [], ◌∷◌, if◌then◌else◌, is_some,
  ltb, leb, ◌==◌,
}
use vaidcord.Base.Action.{Action, pure, raise, lift, gets, modify, ◌>>=◌, ◌>>◌}
use vaidcord.Base.Dict.{Key}
use vaidcord.Base.Names.{name_key}
use vaidcord.Base.Result.{
  Raised, Result, ok, err, runtime_error, dave_unsupported_error, cancelled_error, other_error,
}
use vaidcord.Voice.Connection.{
  VoiceGatewayConfig, VoiceReady, VoiceUdpClient, Message, text, binary, other_message, Ending,
  closes, stays_open, Socket, Frame, identify_frame, resume_frame, select_protocol_frame,
  speaking_frame, Effect, connected, closed_socket, closed_udp, discovered, asked_join,
  player_stopped, receiver_stopped, task_cancelled, Connection, Services, Method, is_open, note,
  send,
}
use vaidcord.Voice.Connection.Closing.{close_ws, close_udp, stop_reader}
use vaidcord.Voice.Connection.Policy.{
  VoiceCloseAction, resume_action, rejoin_action, fatal_action, select_mode, catches,
}
use vaidcord.Voice.Connection.Payloads.{handle_ws_payload}
use vaidcord.Voice.Dave.Backend.{DaveCryptoBackend}
use vaidcord.Voice.Manager.{VoiceState, VoiceServerUpdate}

abbrev pub drop_messages : List Message → Option Socket → Option Socket
drop_messages rest none = none
drop_messages rest (some s) = some (record s { messages = rest })

abbrev pub close_peer : Option Socket → Option Socket
close_peer none = none
close_peer (some s) = some (record s { messages = []; closed = true })

module _ {S : Type 0} where
  abbrev pub start_reader : Connection S → Connection S
  start_reader c = record c { reader = true }

  -- `_receive_until` behind a message.
  abbrev pub until_ending : Ending → Connection S → Result (Unit {0}) × Connection S
  until_ending stays_open c = (err other_error, record c { ws = drop_messages [] c.ws })
  until_ending (closes (some code)) c = (
    err (if code == 4017 then dave_unsupported_error else runtime_error),
    record c { ws = close_peer c.ws },
  )
  until_ending (closes none) c = (err runtime_error, record c { ws = close_peer c.ws })

  abbrev pub is_ready : Connection S → Bool
  is_ready c = is_some c.ready

  abbrev pub is_described : Connection S → Bool
  is_described c = is_some c.session_description

  -- The UDP client of `udp`, or one that is made from the ready payload, connects.
  abbrev pub connect_udp : VoiceReady → Connection S → Connection S
  connect_udp r c = elim c.udp [
    | some u ↦ record c { udp = some (record u { connected = true }) }
    | none ↦ record c { udp = some (record { ip = r.ip; port = r.port; connected = true }) }
  ]

  abbrev pub forget_session : Connection S → Connection S
  forget_session c = record c { ready = none; session_description = none; voice_box = none }

  abbrev pub is_resumed : Connection S → Bool
  is_resumed c = c.resumed_event || is_some c.ready

  module _ (config : VoiceGatewayConfig) (services : Services) (b : DaveCryptoBackend S) where
    -- The loop of `_receive_until`. Where the other side says no more the timeout ends it.
    unfoldable pub receive_from :
        (Connection S → Bool) → Ending → List Message → Method S (Unit {0})
    unfolding handle_ws_payload
    receive_from done ending [] c = until_ending ending c
    receive_from done ending (text p ∷ ms) c =
        let (r, c') = handle_ws_payload b services p (record c { ws = drop_messages ms c.ws }) in
        elim r [
          | err e ↦ (err e, c')
          | ok u ↦ elim (done c') [ true ↦ (ok tt, c') | false ↦ receive_from done ending ms c' ]
        ]
    receive_from done ending (m ∷ ms) c = receive_from done ending ms c

    -- `_receive_until`
    unfoldable pub receive_until : (Connection S → Bool) → Method S (Unit {0})
    unfolding receive_from
    receive_until done c = elim (done c) [
      | true ↦ (ok tt, c)
      | false ↦ elim c.ws [
        | none ↦ (err runtime_error, c)
        | some s ↦ receive_from done s.ending s.messages c
      ]
    ]

    -- `session.ws_connect(…)`
    unfoldable pub open_ws : Method S (Unit {0})
    open_ws c = elim (services.ws_connect c.trace) [
      | err e ↦ (err e, c)
      | ok s ↦ (ok tt, note (connected c.server.endpoint config.version) (record c { ws = some s }))
    ]

    -- The version that IDENTIFY carries.
    abbrev pub dave_version : ℕ
    dave_version =
        if config.dave_backend && ltb 0 config.max_dave_protocol_version
        then (if leb config.max_dave_protocol_version b.max_protocol_version
            then config.max_dave_protocol_version
            else b.max_protocol_version)
        else b.max_protocol_version

    unfoldable pub identify : Method S (Unit {0})
    unfolding send
    identify c =
        send services
          (identify_frame c.guild_id c.user_id c.state.session_id c.server.token dave_version) c

    unfoldable pub resume : Method S (Unit {0})
    unfolding send
    resume c =
        send services (resume_frame c.guild_id c.state.session_id c.server.token c.last_sequence) c

    unfoldable pub establish_ready : VoiceReady → Method S (Unit {0})
    unfolding select_mode send
    establish_ready r c =
        let c' = connect_udp r c in
        elim (services.discover_ip c'.trace) [
          | err e ↦ (err e, c')
          | ok (address, port) ↦ elim (select_mode config r) [
            | err e ↦ (err e, note discovered c')
            | ok mode ↦ send services (select_protocol_frame address port mode) (note discovered c')
          ]
        ]

    -- `_establish_udp_transport`
    unfoldable pub establish_udp_transport : Method S (Unit {0})
    unfolding establish_ready
    establish_udp_transport c = elim c.ready [
      | none ↦ (err runtime_error, c)
      | some r ↦ establish_ready r c
    ]

    -- IDENTIFY and what follows it.
    unfoldable pub handshake : Method S (Unit {0})
    unfolding identify receive_until establish_udp_transport
    handshake = do
      identify
      receive_until is_ready
      establish_udp_transport
      receive_until is_described

    unfoldable pub connect : Method S (Unit {0})
    unfolding open_ws handshake
    connect = do modify (λ c. record c { closing = false }); open_ws; handshake; modify start_reader

    -- The handshake over a socket that is open.
    unfoldable pub resume_or_identify : Bool → Method S (Unit {0})
    unfolding resume receive_until handshake
    resume_or_identify wants_resume c =
        if wants_resume && is_some c.state.session_id
        then (do resume; receive_until is_resumed) (record c { resumed_event = false })
        else handshake (forget_session c)

    unfoldable pub reopen : Bool → Method S (Unit {0})
    unfolding open_ws resume_or_identify
    reopen wants_resume = do open_ws; resume_or_identify wants_resume

    -- `_reconnect_transport`
    unfoldable pub reconnect_transport : Bool → Method S (Unit {0})
    unfolding close_ws reopen
    reconnect_transport wants_resume c = reopen wants_resume (close_ws c)

    unfoldable pub reconnect : Bool → Method S (Unit {0})
    unfolding stop_reader reconnect_transport
    reconnect wants_resume = do
      modify stop_reader
      reconnect_transport wants_resume
      modify start_reader

    unfoldable pub migrate_to : VoiceServerUpdate → Method S (Unit {0})
    unfolding close_udp reconnect
    migrate_to server = do modify (λ c. close_udp (record c { server = server })); reconnect false

    -- `_rejoin`
    unfoldable pub rejoin : Method S (Unit {0})
    unfolding close_udp reconnect_transport
    rejoin c =
        if services.has_manager && is_some c.state.channel_id
        then elim (services.request_join c.trace) [
          | err e ↦ (err e, note asked_join c)
          | ok (state, server) ↦
              reconnect_transport false
                (close_udp (note asked_join (record c { state = state; server = server })))
        ]
        else (err runtime_error, c)

    -- `_attempt_reconnect`
    unfoldable pub attempt_reconnect : VoiceCloseAction → Method S (Unit {0})
    unfolding reconnect_transport rejoin
    attempt_reconnect rejoin_action c = rejoin c
    attempt_reconnect action c =
        let (r, c') = reconnect_transport true c in
        elim r [
          | ok u ↦ (ok tt, c')
          | err e ↦ if catches e then reconnect_transport false c' else (err e, c')
        ]

    unfoldable pub set_speaking : ℕ → Method S (Unit {0})
    unfolding send
    set_speaking flags c = elim c.ready [
      | none ↦ (err runtime_error, c)
      | some r ↦ send services (speaking_frame flags 0 r.ssrc) c
    ]
