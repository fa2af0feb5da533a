-- ===== src/Voice/Connection/Payloads.antt =====
-- What a voice connection does with a payload: `_handle_ws_payload`, `_handle_binary_payload`,
-- `_handle_speaking`, `_map_ssrc`, `_forget_user` and `_flush_dave_outbound`.
pub mod Speakers
pub mod Replies
use vaidcord.Base.{
  ℕ, ◌-◌, ◌*◌, ◌+◌, Bool, true, false, ◌&&◌, Option, none, some, List, [], ◌∷◌, map, ◌++◌, foldl,
  if◌then◌else◌, ◌==◌, leb,
}
use vaidcord.Base.Action.{Action, pure, raise, gets, modify, ◌>>=◌, ◌>>◌}
use vaidcord.Base.Bytes.{Bytes}
use vaidcord.Base.Dict.{nat_key, lookup, insert}
use vaidcord.Base.Result.{Raised, Result, ok, err, key_error, type_error, runtime_error}
use vaidcord.Voice.Connection.{
  Body, hello, heartbeat_ack, resumed, ready, described, speaking, video, client_disconnect,
  other_body, VoiceReady, Payload, Effect, called, speaking_started, speaking_stopped,
  task_cancelled, dave_frame, heartbeat_frame, Connection, Services, Method, is_open, note, send,
}
use vaidcord.Voice.Dave.Backend.{DaveCryptoBackend}
use vaidcord.Voice.Dave.Controller.{
  Controller, GatewayData, mapping, handle_gateway_payload, handle_session_description,
}
use vaidcord.Voice.Dave.State.{DaveOutboundPayload, empty_payload}
use vaidcord.Voice.Sender.{SessionDescription}

abbrev pub same_user : Option ℕ → ℕ → Bool
same_user none user = false
same_user (some u) user = u == user

-- `del self._ssrc_map[ssrc]` for every entry of the user
unfoldable pub without_user : ℕ → List (ℕ × ℕ) → List (ℕ × ℕ)
without_user user [] = []
without_user user ((ssrc, mapped) ∷ m) =
    let rest = without_user user m in if mapped == user then rest else (ssrc, mapped) ∷ rest

-- `int(data.get("speaking", 0))`
abbrev pub flags_of : Option ℕ → ℕ
flags_of none = 0
flags_of (some flags) = flags

module _ {S : Type 0} where
  -- `_map_ssrc`: what the sink raises is logged.
  unfoldable pub map_ssrc : ℕ → ℕ → Connection S → Connection S
  map_ssrc ssrc user c =
      let c' = record c { ssrc_map = insert ssrc user c.ssrc_map } in
      if same_user (lookup ssrc c.ssrc_map) user
      then c'
      else (if c.receiver then note (speaking_started user ssrc) c' else c')

  unfoldable pub forget_user : ℕ → Connection S → Connection S
  unfolding without_user
  forget_user user c =
      let c' = record c { ssrc_map = without_user user c.ssrc_map } in
      if c.receiver then note (speaking_stopped user) c' else c'

  -- What the callbacks raise is logged.
  abbrev pub tell_all : ℕ → ℕ → ℕ → List ℕ → Connection S → Connection S
  tell_all user ssrc flags [] c = c
  tell_all user ssrc flags (callback ∷ callbacks) c =
      tell_all user ssrc flags callbacks (note (called callback user ssrc flags) c)

  unfoldable pub handle_speaking : Option ℕ → Option ℕ → Option ℕ → Connection S → Connection S
  unfolding map_ssrc
  handle_speaking none user flags c = c
  handle_speaking (some ssrc) none flags c = c
  handle_speaking (some ssrc) (some user) flags c =
      tell_all user ssrc (flags_of flags) c.speaking_callbacks (map_ssrc ssrc user c)

  -- `op == 12`: an audio SSRC of 0 is none.
  unfoldable pub handle_video : Option ℕ → Option ℕ → Connection S → Connection S
  unfolding map_ssrc
  handle_video none ssrc c = c
  handle_video (some user) none c = c
  handle_video (some user) (some ssrc) c = if ssrc == 0 then c else map_ssrc ssrc user c

  unfoldable pub handle_disconnect : Option ℕ → Connection S → Connection S
  unfolding forget_user
  handle_disconnect none c = c
  handle_disconnect (some user) c = forget_user user c

  abbrev pub set_sequence : Option ℕ → Connection S → Connection S
  set_sequence none c = c
  set_sequence (some n) c = record c { last_sequence = some n }

  -- `op == 8`
  unfoldable pub start_heartbeat : Option ℕ → Method S (Unit {0})
  start_heartbeat none c = (err key_error, c)
  start_heartbeat (some interval) c = (
    ok tt,
    record (elim c.heartbeat [ none ↦ c | some i ↦ note task_cancelled c ]) {
      heartbeat = some interval;
    },
  )

  -- `op == 2`
  unfoldable pub handle_ready : Option VoiceReady → Method S (Unit {0})
  handle_ready none c = (err key_error, c)
  handle_ready (some r) c = (
    ok tt,
    record c {
      ready = some r;
      udp = some (record { ip = r.ip; port = r.port; connected = false });
    },
  )

  unfoldable pub keep_description : Option SessionDescription → Method S (Unit {0})
  keep_description none c = (err key_error, c)
  keep_description (some d) c = (ok tt, record c { session_description = some d; voice_box = none })

  abbrev pub set_queue : List DaveOutboundPayload → Connection S → Connection S
  set_queue queue c = record c { dave = record c.dave { sent = some queue } }

  -- A binary reply raises: its data is a dict, not bytes.
  unfoldable pub send_outbound : Services → DaveOutboundPayload → Method S (Unit {0})
  unfolding send
  send_outbound services p c =
      if p.binary
      then (if is_open c.ws then (err type_error, c) else (err runtime_error, c))
      else send services (dave_frame p) c

  -- A reply is taken off the queue before it is sent.
  unfoldable pub flush_queue : Services → List DaveOutboundPayload → Method S (Unit {0})
  unfolding send_outbound
  flush_queue services [] c = (ok tt, c)
  flush_queue services (p ∷ ps) c =
      let (r, c') = send_outbound services p (set_queue ps c) in
      elim r [ ok u ↦ flush_queue services ps c' | err e ↦ (err e, c') ]

  -- `_flush_dave_outbound`
  unfoldable pub flush_dave_outbound : Services → Method S (Unit {0})
  unfolding flush_queue
  flush_dave_outbound services c = elim c.dave.sent [
    | none ↦ (ok tt, c)
    | some queue ↦ flush_queue services queue c
  ]

  module _ (b : DaveCryptoBackend S) where
    -- A call of the DAVE controller.
    abbrev pub call_dave : {A : Type 0} → Action (Controller S) A → Method S A
    call_dave f c = let (r, d) = f c.dave in (r, record c { dave = d })

    -- `op == 4`: DAVE sees the description before its keys are read.
    unfoldable pub handle_description :
        GatewayData → Option SessionDescription → Method S (Unit {0})
    unfolding keep_description
    handle_description given description = do
      call_dave (handle_session_description b given)
      keep_description description

    -- `21 <= op <= 31`
    unfoldable pub handle_other : Services → ℕ → GatewayData → Method S (Unit {0})
    handle_other services op given =
        if leb 21 op && leb op 31
        then (call_dave (handle_gateway_payload b op given) >>= λ handled.
            flush_dave_outbound services)
        else pure tt

    abbrev pub handle_ack : Services → Connection S → Connection S
    handle_ack services c = elim c.last_heartbeat_sent_at [
      | none ↦ c
      | some at ↦ record c { latency = services.monotonic c.trace - at }
    ]

    unfoldable pub handle_body : Services → Body → Method S (Unit {0})
    unfolding start_heartbeat handle_ready handle_speaking handle_video handle_disconnect
    handle_body services (hello interval) = start_heartbeat interval
    handle_body services heartbeat_ack = modify (handle_ack services)
    handle_body services (ready r) = handle_ready r
    handle_body services (described given description) = handle_description given description
    handle_body services (speaking ssrc user flags) = modify (handle_speaking ssrc user flags)
    handle_body services resumed = modify (λ c. record c { resumed_event = true })
    handle_body services (video user ssrc) = modify (handle_video user ssrc)
    handle_body services (client_disconnect user) = modify (handle_disconnect user)
    handle_body services (other_body op given) = handle_other services op given

    -- `_handle_ws_payload`
    unfoldable pub handle_ws_payload : Services → Payload → Method S (Unit {0})
    unfolding handle_body
    handle_ws_payload services p c = handle_body services p.body (set_sequence p.seq c)

    -- `_handle_binary_payload`: `struct.unpack_from(">HB", …)`, and what DAVE raises is logged.
    unfoldable pub handle_binary_payload : Bytes → Connection S → Connection S
    handle_binary_payload (high ∷ low ∷ op ∷ body) c =
        let c' = record c { last_sequence = some (high * 256 + low) } in
        (call_dave (handle_gateway_payload b op (mapping (record empty_payload { rest = body })))
          c').1
    handle_binary_payload bytes c = c

    -- `except RuntimeError: return`
    abbrev pub catch_runtime : Raised → Result Bool
    catch_runtime runtime_error = ok false
    catch_runtime e = err e

    -- One round of `_heartbeat_loop` before its sleep: true where the task goes on.
    unfoldable pub heartbeat_round : Services → Method S Bool
    unfolding send
    heartbeat_round services c =
        let (r, c') =
          send services (heartbeat_frame c.last_sequence)
            (record c { last_heartbeat_sent_at = some (services.monotonic c.trace) }) in
        elim r [ ok u ↦ (ok true, c') | err e ↦ (catch_runtime e, c') ]
