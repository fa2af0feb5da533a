-- ===== src/Voice/Dave/Backend.antt =====
-- vaidcord-py/src/vaidcord/voice/dave/backend.py: the interface of a crypto backend over a state of its
-- own, and the default one that refuses everything.
use vaidcord.Base.{ℕ, Option}
use vaidcord.Base.Action.{Action, raise}
use vaidcord.Base.Bytes.{Bytes}
use vaidcord.Base.Result.{dave_unsupported_error}
use vaidcord.Voice.Dave.State.{Payload, DaveTransition, DaveMessage}

pub record DaveCryptoBackend (S : Type 0) : Type 0 where
  pub max_protocol_version : ℕ
  pub prepare_transition : DaveTransition → Action S (Unit {0})
  pub execute_transition : DaveTransition → Action S (Unit {0})
  pub prepare_epoch : DaveTransition → Action S (Option DaveMessage)
  pub set_external_sender : Payload → Action S (Unit {0})
  pub handle_proposals : Payload → Action S (Option DaveMessage)
  pub handle_commit_welcome : Payload → Action S (Unit {0})
  pub handle_welcome : Payload → Action S (Unit {0})
  pub handle_invalid_commit_welcome : Payload → Action S (Unit {0})
  pub encrypt_frame : ℕ → Bytes → Action S Bytes
  pub decrypt_frame : ℕ → Bytes → Action S Bytes

-- `UnsupportedDaveBackend`
abbrev pub unsupported : DaveCryptoBackend (Unit {0})
unsupported = record {
  max_protocol_version = 0;
  prepare_transition = λ t. raise dave_unsupported_error;
  execute_transition = λ t. raise dave_unsupported_error;
  prepare_epoch = λ t. raise dave_unsupported_error;
  set_external_sender = λ p. raise dave_unsupported_error;
  handle_proposals = λ p. raise dave_unsupported_error;
  handle_commit_welcome = λ p. raise dave_unsupported_error;
  handle_welcome = λ p. raise dave_unsupported_error;
  handle_invalid_commit_welcome = λ p. raise dave_unsupported_error;
  encrypt_frame = λ ssrc frame. raise dave_unsupported_error;
  decrypt_frame = λ ssrc frame. raise dave_unsupported_error;
}
