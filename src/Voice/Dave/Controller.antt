-- ===== src/Voice/Dave/Controller.antt =====
-- vaidcord-py/src/vaidcord/voice/dave/controller.py
pub mod Safety
pub mod Transition
mod Examples
use vaidcord.Base.{
  ℕ, zero, ◌+◌, ◌≡◌, Bool, true, false, not, ◌&&◌, ◌||◌, Option, none, some, List, [], ◌∷◌, ◌++◌,
  ◌==◌, if◌then◌else◌,
}
use vaidcord.Base.Action.{Action, pure, raise, lift, gets, modify, ◌>>=◌, ◌>>◌}
use vaidcord.Base.Bytes.{Bytes}
use vaidcord.Base.Decimal.{read_decimal}
use vaidcord.Base.Result.{
  Raised, Result, ok, err, dave_unsupported_error, dave_payload_error, dave_backend_error,
}
use vaidcord.Voice.Dave.Backend.{DaveCryptoBackend}
use vaidcord.Voice.Dave.State.{
  DaveOpcode, opcode_value, opcodes, Value, Payload, empty_payload, DaveTransition, DaveMessage,
  DaveOutboundPayload, DaveProtocolState, is_active, requires_backend, null, number, text, other,
}

-- What the gateway sends beside the opcode.
pub data GatewayData : Type 0 where
  absent : GatewayData
  mapping : Payload → GatewayData
  not_mapping : GatewayData

-- `sent` is what went through `send_payload`, in order, if there is such a callback.
pub record Controller (S : Type 0) : Type 0 where
  pub backend : S
  pub state : DaveProtocolState
  pub fail_fast : Bool
  pub sent : Option (List DaveOutboundPayload)

-- `_optional_int`
unfoldable pub optional_int : Option Value → Result (Option ℕ)
optional_int none = ok none
optional_int (some null) = ok none
optional_int (some (number n)) = ok (some n)
optional_int (some (text cs)) = elim (read_decimal cs) [
  | ok n ↦ ok (some n)
  | err e ↦ err dave_payload_error
]
optional_int (some (other b)) = err dave_payload_error

-- `payload.get(key, default)` and a value that is `None`.
abbrev pub or_else : Option Value → Option Value → Option Value
or_else none default = default
or_else (some v) default = some v

abbrev pub not_null : Option Value → Option Value
not_null none = none
not_null (some null) = none
not_null (some (number n)) = some (number n)
not_null (some (text cs)) = some (text cs)
not_null (some (other b)) = some (other b)

-- `_transition_from_payload`
unfoldable pub transition_from_payload : Payload → Result DaveTransition
transition_from_payload p =
    elim (optional_int (or_else p.protocol_version p.dave_protocol_version)) [
      | err e ↦ err e
      | ok version ↦ elim (optional_int p.epoch) [
        | err e ↦ err e
        | ok epoch ↦ ok (record {
          transition_id = not_null p.transition_id;
          protocol_version = version;
          epoch = epoch;
        })
      ]
    ]

-- `_payload_dict`
abbrev pub payload_dict : GatewayData → Result Payload
payload_dict absent = ok empty_payload
payload_dict (mapping p) = ok p
payload_dict not_mapping = err dave_payload_error

unfoldable find_opcode : ℕ → List DaveOpcode → Option DaveOpcode
find_opcode op [] = none
find_opcode op (o ∷ os) = if opcode_value o == op then some o else find_opcode op os

-- `_coerce_opcode`
unfoldable pub coerce_opcode : ℕ → Option DaveOpcode
unfolding find_opcode
coerce_opcode op = find_opcode op opcodes

module _ {S : Type 0} (b : DaveCryptoBackend S) where
  abbrev pub Method : Type 0 → Type 0
  Method A = Action (Controller S) A

  -- A call of the backend on its own state.
  abbrev pub call : {A : Type 0} → Action S A → Method A
  call m c = let (r, s) = m c.backend in (r, record c { backend = s })

  abbrev pub update : (DaveProtocolState → DaveProtocolState) → Method (Unit {0})
  update f = modify (λ c. record c { state = f c.state })

  abbrev pub append_sent :
      Option (List DaveOutboundPayload) → DaveOutboundPayload → Option (List DaveOutboundPayload)
  append_sent none p = none
  append_sent (some ps) p = some (ps ++ p ∷ [])

  -- `_send`
  unfoldable pub send : DaveOutboundPayload → Method (Unit {0})
  send p = modify (λ c. record c { sent = append_sent c.sent p })

  unfoldable pub send_transition_ready : DaveTransition → Method (Unit {0})
  unfolding send
  send_transition_ready t = send (record {
    op = opcode_value DaveOpcode.transition_ready;
    payload = record empty_payload { transition_id = t.transition_id };
    binary = false;
  })

  -- A message of the backend, if it made one, goes out under its opcode.
  unfoldable pub send_message : DaveOpcode → Option DaveMessage → Method (Unit {0})
  unfolding send
  send_message opcode none = pure tt
  send_message opcode (some m) =
      send (record { op = opcode_value opcode; payload = m.payload; binary = m.binary })

  -- `_require_backend`
  unfoldable pub require_backend : Method (Unit {0})
  require_backend c =
      if (b.max_protocol_version == 0) && c.fail_fast
      then (err dave_unsupported_error, c)
      else (ok tt, c)

  unfoldable pub prepare_transition : Payload → Method (Unit {0})
  prepare_transition p = do
    t ← lift (transition_from_payload p)
    update (λ s. record s {
      pending_transition = some p;
      transition_id = t.transition_id;
      protocol_version = t.protocol_version;
    })
    if is_active t.protocol_version
        then (do require_backend; call (b.prepare_transition t); send_transition_ready t)
        else send_transition_ready t

  abbrev pub is_zero_version : Option ℕ → Bool
  is_zero_version none = false
  is_zero_version (some v) = v == 0

  abbrev pub version_or : Option ℕ → Option ℕ → Option ℕ
  version_or none old = old
  version_or (some v) old = some v

  unfoldable pub execute_transition : Payload → Method (Unit {0})
  execute_transition p = do
    t ← lift (transition_from_payload p)
    update (λ s. record s { transition_id = t.transition_id })
    if is_zero_version t.protocol_version
        then update (λ s. record s { enabled = false; protocol_version = some 0 })
        else (do
          require_backend
          call (b.execute_transition t)
          update (λ s. record s {
            protocol_version = version_or t.protocol_version s.protocol_version;
          })
          update (λ s. record s { enabled = is_active s.protocol_version }))

  unfoldable pub prepare_epoch : Payload → Method (Unit {0})
  prepare_epoch p = do
    t ← lift (transition_from_payload p)
    update (λ s. record s {
      pending_epoch = some p;
      transition_id = t.transition_id;
      protocol_version = t.protocol_version;
      epoch = t.epoch;
    })
    require_backend
    key_package ← call (b.prepare_epoch t)
    send_message DaveOpcode.mls_key_package key_package
    send_transition_ready t

  -- `_handle_dave_opcode`
  unfoldable pub handle_dave_opcode : DaveOpcode → Payload → Method (Unit {0})
  handle_dave_opcode DaveOpcode.prepare_transition p = prepare_transition p
  handle_dave_opcode DaveOpcode.execute_transition p = execute_transition p
  handle_dave_opcode DaveOpcode.transition_ready p = pure tt
  handle_dave_opcode DaveOpcode.prepare_epoch p = prepare_epoch p
  handle_dave_opcode DaveOpcode.mls_external_sender p = do
    update (λ s. record s { external_sender = some p })
    require_backend
    call (b.set_external_sender p)
  handle_dave_opcode DaveOpcode.mls_key_package p = update (λ s. record s { key_package = some p })
  handle_dave_opcode DaveOpcode.mls_proposals p = do
    update (λ s. record s { proposals = s.proposals ++ p ∷ [] })
    require_backend
    commit ← call (b.handle_proposals p)
    send_message DaveOpcode.mls_commit_welcome commit
  handle_dave_opcode DaveOpcode.mls_commit_welcome p = do
    update (λ s. record s { commit_welcome = some p })
    require_backend
    call (b.handle_commit_welcome p)
  handle_dave_opcode DaveOpcode.mls_announce_commit_transition p =
      update (λ s. record s { announced_commit_transition = some p })
  handle_dave_opcode DaveOpcode.mls_welcome p = do
    update (λ s. record s { welcome = some p })
    require_backend
    call (b.handle_welcome p)
  handle_dave_opcode DaveOpcode.mls_invalid_commit_welcome p = do
    update (λ s. record s { invalid_commit_welcomes = s.invalid_commit_welcomes ++ p ∷ [] })
    require_backend
    call (b.handle_invalid_commit_welcome p)

  -- `except DaveUnsupportedError: raise`, and any other exception becomes `DaveBackendError`.
  abbrev pub rewrap : Raised → Raised
  rewrap dave_unsupported_error = dave_unsupported_error
  rewrap _ = dave_backend_error

  abbrev pub finish : Result (Unit {0}) × Controller S → Result Bool × Controller S
  finish (ok _, c) = (ok true, c)
  finish (err e, c) = (err (rewrap e), c)

  -- The rest of `handle_gateway_payload` for an opcode of the range.
  unfoldable pub handle_opcode : DaveOpcode → GatewayData → Method Bool
  handle_opcode opcode gateway_data = do
    p ← lift (payload_dict gateway_data)
    update (λ s. record s { seen = true; last_opcode = some opcode })
    λ c. finish (handle_dave_opcode opcode p c)

  unfoldable pub handle_gateway_payload : ℕ → GatewayData → Method Bool
  handle_gateway_payload op gateway_data = elim (coerce_opcode op) [
    | none ↦ pure false
    | some opcode ↦ handle_opcode opcode gateway_data
  ]

  unfoldable pub handle_session_description : GatewayData → Method (Unit {0})
  handle_session_description gateway_data = do
    p ← lift (payload_dict gateway_data)
    version ← lift (optional_int p.dave_protocol_version)
    update (λ s. record s {
      protocol_version = version;
      negotiated = is_active version;
      enabled = is_active version;
    })
    c ← gets (λ c. c)
    if c.fail_fast && (requires_backend c.state && (b.max_protocol_version == 0))
        then raise dave_unsupported_error
        else pure tt

  unfoldable pub encrypt_frame : ℕ → Bytes → Method Bytes
  encrypt_frame ssrc frame c =
      if c.state.enabled then call (b.encrypt_frame ssrc frame) c else (ok frame, c)

  unfoldable pub decrypt_frame : ℕ → Bytes → Method Bytes
  decrypt_frame ssrc frame c =
      if c.state.enabled then call (b.decrypt_frame ssrc frame) c else (ok frame, c)
