-- ===== src/Voice/Dave/Controller/Transition.antt =====
-- Two messages that belong together: a transition is prepared and then executed.
use vaidcord.Base.{ℕ, ◌≡◌, Bool, true, false, some, List, [], ◌∷◌, ◌++◌, arith}
use vaidcord.Base.Bytes.{Bytes}
use vaidcord.Base.Result.{Result, ok}
use vaidcord.Voice.Dave.Backend.{DaveCryptoBackend}
use vaidcord.Voice.Dave.State.{number, Payload, empty_payload, DaveOutboundPayload, is_active}
use vaidcord.Voice.Dave.Controller.{
  Controller, mapping, handle_gateway_payload, handle_opcode, handle_dave_opcode,
  prepare_transition, execute_transition, require_backend, send_transition_ready, send,
  transition_from_payload, optional_int, coerce_opcode, find_opcode, encrypt_frame, decrypt_frame,
}

-- What the gateway sends to prepare a transition to a version, and to execute it.
abbrev pub prepare_payload : ℕ → ℕ → Payload
prepare_payload id version = record empty_payload {
  transition_id = some (number id);
  protocol_version = some (number version);
}

abbrev pub execute_payload : ℕ → Payload
execute_payload id = record empty_payload { transition_id = some (number id) }

-- The acknowledgement of a transition.
abbrev pub ready : ℕ → DaveOutboundPayload
ready id = record {
  op = 23;
  payload = record empty_payload { transition_id = some (number id) };
  binary = false;
}

module _ {S : Type 0} (b : DaveCryptoBackend S) where
  abbrev pub prepared : ℕ → ℕ → Controller S → Result Bool × Controller S
  prepared id version = handle_gateway_payload b 21 (mapping (prepare_payload id version))

  abbrev pub executed : Payload → Controller S → Result Bool × Controller S
  executed p = handle_gateway_payload b 22 (mapping p)

  -- A downgrade to version 0, prepared and executed with that version, is handled for every backend and
  -- without a call of it: DAVE is off, the frames of media pass unchanged, and the transition was
  -- acknowledged once.
  pub downgrade :
      (id ssrc : ℕ) (frame : Bytes) (c : Controller S) (ps : List DaveOutboundPayload)
      → c.sent ≡ some ps
      → let p = prepared id 0 c in
        let x = executed (prepare_payload id 0) p.1 in
        (p.0 ≡ ok true)
        × (x.0 ≡ ok true)
        × (x.1.state.enabled ≡ false)
        × (x.1.backend ≡ c.backend)
        × (x.1.sent ≡ some (ps ++ ready id ∷ []))
        × (encrypt_frame b ssrc frame x.1 ≡ (ok frame, x.1))
        × (decrypt_frame b ssrc frame x.1 ≡ (ok frame, x.1))
  unfolding handle_gateway_payload handle_opcode handle_dave_opcode prepare_transition
      execute_transition send_transition_ready send transition_from_payload optional_int
      coerce_opcode find_opcode encrypt_frame decrypt_frame
  downgrade id ssrc frame c ps e = ground arith

  -- A transition that was prepared for a version, then executed by a message that names only the
  -- transition: if both are handled, that version is in force, and DAVE is on exactly if it is not 0.
  pub prepare-execute :
      (id version : ℕ) (c : Controller S)
      → (prepared id version c).0 ≡ ok true
      → (executed (execute_payload id) (prepared id version c).1).0 ≡ ok true
      → let x = executed (execute_payload id) (prepared id version c).1 in
        (x.1.state.protocol_version ≡ some version)
        × (x.1.state.enabled ≡ is_active (some version))
        × (x.1.state.transition_id ≡ some (number id))
  unfolding handle_gateway_payload handle_opcode handle_dave_opcode prepare_transition
      execute_transition require_backend send_transition_ready send transition_from_payload
      optional_int coerce_opcode find_opcode
  prepare-execute id version c h k = ground arith
