-- ===== src/Voice/Dave/Controller/Examples.antt =====
-- The controller at concrete inputs, over the backend that refuses and over one that accepts.
use vaidcord.Base.{◌≡◌, ◌≢◌, refl, true, false, none, some, List, [], ◌∷◌, ◌⊎◌}
use vaidcord.Base.Action.{pure}
use vaidcord.Base.Result.{ok, err, dave_unsupported_error, dave_payload_error}
use vaidcord.Voice.Dave.Backend.{DaveCryptoBackend, unsupported}
use vaidcord.Voice.Dave.State.{number, empty_payload, initial_state, requires_backend}
use vaidcord.Voice.Dave.Controller.{
  Controller, mapping, not_mapping, handle_gateway_payload, handle_opcode, handle_dave_opcode,
  prepare_transition, execute_transition, require_backend, send_transition_ready, send,
  transition_from_payload, optional_int, coerce_opcode, find_opcode, handle_session_description,
}
use vaidcord.Voice.Dave.Controller.Safety.{
  DaveEvent, session_description, gateway_payload, deliver, no_backend_stays_disabled,
}
use vaidcord.Voice.Dave.Controller.Transition.{
  prepare_payload, execute_payload, prepared, executed, prepare-execute,
}

-- A backend that takes every message and turns a frame around.
abbrev accepting : DaveCryptoBackend (Unit {0})
accepting = record {
  max_protocol_version = 1;
  prepare_transition = λ t. pure tt;
  execute_transition = λ t. pure tt;
  prepare_epoch = λ t. pure none;
  set_external_sender = λ p. pure tt;
  handle_proposals = λ p. pure none;
  handle_commit_welcome = λ p. pure tt;
  handle_welcome = λ p. pure tt;
  handle_invalid_commit_welcome = λ p. pure tt;
  encrypt_frame = λ ssrc frame. pure (0 ∷ frame);
  decrypt_frame = λ ssrc frame. pure frame;
}

abbrev fresh : Controller (Unit {0})
fresh = record { backend = tt; state = initial_state; fail_fast = true; sent = some [] }

-- The version of a session description is noted before the missing backend is.
session_without_backend :
    handle_session_description unsupported
      (mapping (record empty_payload { dave_protocol_version = some (number 1) }))
      fresh
    ≡ (
      err dave_unsupported_error,
      record fresh {
        state = record initial_state {
          protocol_version = some 1;
          negotiated = true;
          enabled = true;
        };
      },
    )
unfolding handle_session_description optional_int requires_backend
session_without_backend = refl

abbrev events : List DaveEvent
events =
    gateway_payload 22 (mapping (execute_payload 5))
    ∷ session_description
        (mapping (record empty_payload { dave_protocol_version = some (number 1) }))
    ∷ []

no_backend_stays_disabled_example :
    ((deliver unsupported events fresh).1.state.enabled ≡ false)
    ⊎ ((deliver unsupported events fresh).0 ≡ err dave_unsupported_error)
no_backend_stays_disabled_example =
    no_backend_stays_disabled unsupported events fresh refl refl refl

payload_error_raised :
    (handle_gateway_payload unsupported 22 not_mapping fresh).0 ≡ err dave_payload_error
unfolding handle_gateway_payload handle_opcode coerce_opcode find_opcode
payload_error_raised = refl

mapping_differs : mapping (prepare_payload 5 1) ≢ not_mapping
mapping_differs h = cc h

upgrade_prepared : (prepared accepting 5 1 fresh).0 ≡ ok true
unfolding handle_gateway_payload handle_opcode handle_dave_opcode prepare_transition require_backend
    send_transition_ready send transition_from_payload optional_int coerce_opcode find_opcode
upgrade_prepared = refl

upgrade_executed :
    (executed accepting (execute_payload 5) (prepared accepting 5 1 fresh).1).0 ≡ ok true
unfolding handle_gateway_payload handle_opcode handle_dave_opcode prepare_transition
    execute_transition require_backend send_transition_ready send transition_from_payload
    optional_int coerce_opcode find_opcode
upgrade_executed = refl

prepare-execute_example :
    let x = executed accepting (execute_payload 5) (prepared accepting 5 1 fresh).1 in
    (x.1.state.protocol_version ≡ some 1)
    × (x.1.state.enabled ≡ true)
    × (x.1.state.transition_id ≡ some (number 5))
prepare-execute_example = prepare-execute accepting 5 1 fresh upgrade_prepared upgrade_executed
