-- ===== src/Voice/Connection/Examples.antt =====
-- A voice connection at concrete inputs.
use vaidcord.Base.{◌⊎◌, ℕ, ◌≡◌, refl, Bool, true, false, none, some, List, [], ◌∷◌, ◌++◌}
use vaidcord.Base.Dict.{nat_key, lookup}
use vaidcord.Base.Items.{IsDict}
use vaidcord.Base.Result.{Raised, type_error, ok, err, runtime_error, other_error}
use vaidcord.Voice.Connection.{
  VoiceGatewayConfig, VoiceReady, hello, ready, described, speaking, client_disconnect, Payload,
  Message, text, other_message, stays_open, Socket, heartbeat_frame, connected, sent, resume_frame,
  Connection, Services, send,
}
use vaidcord.Voice.Connection.Closing.{
  Closers, await_receiver, await_reader, await_heartbeat, close,
}
use vaidcord.Voice.Connection.Policy.{classify_voice_close_code, resume_action}
use vaidcord.Voice.Connection.Closing.Closes.{IsClosed, close-IsClosed-send}
use vaidcord.Voice.Connection.Payloads.{flush_dave_outbound}
use vaidcord.Voice.Connection.Payloads.Replies.{Flushed, flush_dave_outbound-Flushed}
use vaidcord.Voice.Connection.Payloads.Speakers.{handle_all, lookup-handle_all}
use vaidcord.Voice.Connection.Reader.{goes_on, read_loop}
use vaidcord.Voice.Connection.Reader.Delays.{pauses, read_loop-pauses}
use vaidcord.Voice.Connection.Reader.Spins.{silent, resumes, read_loop_spins}
use vaidcord.Voice.Dave.Backend.{DaveCryptoBackend, unsupported}
use vaidcord.Voice.Dave.Controller.{Controller, mapping}
use vaidcord.Voice.Dave.State.{DaveOutboundPayload, empty_payload, initial_state}
use vaidcord.Voice.Sender.{SessionDescription}

abbrev config : VoiceGatewayConfig
config = record {
  version = 8;
  max_dave_protocol_version = 0;
  dave_backend = false;
  preferred_modes = "aead_aes256_gcm_rtpsize" ∷ [];
}

abbrev ready_data : VoiceReady
ready_data = record {
  ssrc = 9;
  ip = "192.0.2.1";
  port = 50000;
  modes = "xsalsa20_poly1305_lite_rtpsize" ∷ "aead_aes256_gcm_rtpsize" ∷ [];
}

abbrev description : SessionDescription
description = record { mode = "aead_aes256_gcm_rtpsize"; secret_key = 1 ∷ 2 ∷ [] }

abbrev before : List Message
before = other_message ∷ text (record { seq = none; body = hello (some 41250) }) ∷ []

abbrev between : List Message
between = text (record { seq = some 1; body = speaking (some 5) (some 77) (some 1) }) ∷ []

-- READY and the description behind a HELLO and a speaking payload.
abbrev socket : Socket
socket = record {
  messages =
      before
      ++ text (record { seq = none; body = ready (some ready_data) })
        ∷ (between
            ++ text (record {
              seq = some 2;
              body = described (mapping empty_payload) (some description);
            })
              ∷ []);
  ending = stays_open;
  closed = false;
}

abbrev answering : Socket → Services
answering s = record {
  ws_connect = λ trace. ok s;
  send_json = λ trace. none;
  discover_ip = λ trace. ok ("198.51.100.7", 40000);
  monotonic = λ trace. 7;
  has_manager = true;
  request_join = λ trace. err other_error;
}

abbrev refusing : Services
refusing = record (answering socket) { ws_connect = λ trace. err other_error }

abbrev connection : Connection (Unit {0})
connection = record {
  guild_id = 1;
  user_id = 2;
  state = record {
    guild_id = 1;
    channel_id = some 3;
    user_id = some 2;
    session_id = some "session";
  };
  server = record { guild_id = 1; token = "token"; endpoint = "voice.example" };
  ready = none;
  session_description = none;
  udp = none;
  ws = none;
  heartbeat = none;
  reader = false;
  last_sequence = none;
  last_heartbeat_sent_at = none;
  latency = 0;
  voice_box = none;
  ssrc_map = [];
  speaking_callbacks = 0 ∷ [];
  closing = false;
  resumed_event = false;
  player = false;
  receiver = true;
  dave = record { backend = tt; state = initial_state; fail_fast = true; sent = some [] };
  trace = [];
}

-- A connection that was ready, over a socket that ends with a code.
abbrev lost : ℕ → Connection (Unit {0})
lost code = record connection { ready = some ready_data; ws = some (silent (some code)) }

abbrev reply : Bool → DaveOutboundPayload
reply binary = record { op = 23; payload = empty_payload; binary = binary }

abbrev queue : List DaveOutboundPayload
queue = reply false ∷ reply true ∷ reply false ∷ []

abbrev queued : Connection (Unit {0})
queued = record (lost 4015) { dave = record connection.dave { sent = some queue } }

abbrev payloads : List Payload
payloads =
    record { seq = none; body = speaking (some 5) (some 77) (some 1) }
    ∷ record { seq = none; body = speaking (some 6) (some 78) none }
    ∷ record { seq = none; body = client_disconnect (some 77) }
    ∷ []

-- A backend that offers a version takes every description.
abbrev offering : DaveCryptoBackend (Unit {0})
offering = record unsupported { max_protocol_version = 1 }

code_resumes : classify_voice_close_code (some 4015) ≡ resume_action
unfolding classify_voice_close_code
code_resumes = refl

read_loop_spins_example :
    let (progress, c) =
      read_loop config (answering (silent (some 4015))) unsupported 3 1 (lost 4015) in
    (progress ≡ goes_on 1)
    × (c.trace
        ≡ resumes 3
            (connected "voice.example" 8)
            (sent (resume_frame 1 (some "session") "token" none))
            [])
read_loop_spins_example =
    read_loop_spins config (answering (silent (some 4015))) unsupported 2 (some 4015) 1 (lost 4015)
      code_resumes (λ trace. refl) (λ trace. refl) refl refl refl refl

read_loop-pauses_example :
    (read_loop config refusing unsupported 4 1 (lost 4015)).1.trace ≡ pauses 4 []
read_loop-pauses_example =
    read_loop-pauses config refusing unsupported 4 other_error (some 4015) false 1 (lost 4015) refl
      code_resumes (λ trace. refl) refl refl

abbrev quiet_closers : Closers
quiet_closers = record {
  receiver_stop = none;
  reader_task = none;
  heartbeat_task = none;
  udp_close = none;
  ws_close = none;
}

close-IsClosed-send_example :
    let (result, c') = close quiet_closers queued in
    ((result ≡ ok tt)
      × IsClosed c'
      × (send (answering socket) (heartbeat_frame none) c' ≡ (err runtime_error, c'))
      × (close quiet_closers c' ≡ (ok tt, c')))
    ⊎ ((e : Raised) × (result ≡ err e) × (c'.closing ≡ true))
close-IsClosed-send_example =
    close-IsClosed-send (answering socket) quiet_closers quiet_closers (heartbeat_frame none) queued

-- A heartbeat that had died keeps the UDP client and the websocket, however often `close` is called.
abbrev dead_heartbeat : Closers
dead_heartbeat = record quiet_closers { heartbeat_task = some type_error }

abbrev beating : Connection (Unit {0})
beating = record queued { heartbeat = some 5; ws = some socket }

dead_heartbeat_keeps_open :
    let (result, c') = close dead_heartbeat beating in
    (result ≡ err type_error)
    × (c'.ws ≡ some socket)
    × ((close dead_heartbeat c').0 ≡ err type_error)
unfolding close await_receiver await_reader await_heartbeat
dead_heartbeat_keeps_open = (refl, refl, refl)

lookup-handle_all_example :
    IsDict (handle_all (answering socket) unsupported payloads connection).ssrc_map
    × (lookup 6 (handle_all (answering socket) unsupported payloads connection).ssrc_map ≡ some 78)
unfolding IsDict
lookup-handle_all_example =
    lookup-handle_all (answering socket) unsupported 6 payloads connection tt

flush_dave_outbound-Flushed_example :
    Flushed queue queued (flush_dave_outbound (answering socket) queued)
flush_dave_outbound-Flushed_example =
    flush_dave_outbound-Flushed (answering socket) queue queued refl
