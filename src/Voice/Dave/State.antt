-- ===== src/Voice/Dave/State.antt =====
-- vaidcord-py/src/vaidcord/voice/dave/opcodes.py, models.py and state.py, with the payloads that the
-- controller reads.
use vaidcord.Base.{
  ℕ, Bool, false, not, ◌||◌, Option, none, some, List, [], ◌∷◌, length, is_some, ◌==◌,
}
use vaidcord.Base.Bytes.{Bytes}
pub use vaidcord.Base.Value.{Value, null, number, text, other}

pub data DaveOpcode : Type 0 where
  prepare_transition execute_transition transition_ready prepare_epoch mls_external_sender :
      DaveOpcode
  mls_key_package mls_proposals mls_commit_welcome mls_announce_commit_transition : DaveOpcode
  mls_welcome mls_invalid_commit_welcome : DaveOpcode

abbrev pub opcode_value : DaveOpcode → ℕ
opcode_value prepare_transition = 21
opcode_value execute_transition = 22
opcode_value transition_ready = 23
opcode_value prepare_epoch = 24
opcode_value mls_external_sender = 25
opcode_value mls_key_package = 26
opcode_value mls_proposals = 27
opcode_value mls_commit_welcome = 28
opcode_value mls_announce_commit_transition = 29
opcode_value mls_welcome = 30
opcode_value mls_invalid_commit_welcome = 31

abbrev pub opcodes : List DaveOpcode
opcodes =
    prepare_transition ∷ execute_transition ∷ transition_ready ∷ prepare_epoch ∷ mls_external_sender
    ∷ mls_key_package ∷ mls_proposals ∷ mls_commit_welcome ∷ mls_announce_commit_transition
    ∷ mls_welcome ∷ mls_invalid_commit_welcome ∷ []

abbrev pub server_to_client : List DaveOpcode
server_to_client =
    prepare_transition ∷ execute_transition ∷ prepare_epoch ∷ mls_external_sender ∷ mls_proposals
    ∷ mls_announce_commit_transition ∷ mls_welcome ∷ []

abbrev pub client_to_server : List DaveOpcode
client_to_server =
    transition_ready ∷ mls_key_package ∷ mls_commit_welcome ∷ mls_invalid_commit_welcome ∷ []

-- The keys that the controller reads, `none` where the key is missing, and the rest of the dict.
pub record Payload : Type 0 where
  pub transition_id : Option Value
  pub protocol_version : Option Value
  pub dave_protocol_version : Option Value
  pub epoch : Option Value
  pub rest : Bytes

abbrev pub empty_payload : Payload
empty_payload = record {
  transition_id = none;
  protocol_version = none;
  dave_protocol_version = none;
  epoch = none;
  rest = [];
}

pub record DaveTransition : Type 0 where
  pub transition_id : Option Value
  pub protocol_version : Option ℕ
  pub epoch : Option ℕ

-- `DaveKeyPackage` and `DaveCommit`: a payload and its wire encoding.
pub record DaveMessage : Type 0 where
  pub payload : Payload
  pub binary : Bool

pub record DaveOutboundPayload : Type 0 where
  pub op : ℕ
  pub payload : Payload
  pub binary : Bool

pub record DaveProtocolState : Type 0 where
  pub seen : Bool
  pub enabled : Bool
  pub negotiated : Bool
  pub protocol_version : Option ℕ
  pub epoch : Option ℕ
  pub transition_id : Option Value
  pub pending_transition : Option Payload
  pub pending_epoch : Option Payload
  pub external_sender : Option Payload
  pub key_package : Option Payload
  pub commit_welcome : Option Payload
  pub welcome : Option Payload
  pub announced_commit_transition : Option Payload
  pub proposals : List Payload
  pub invalid_commit_welcomes : List Payload
  pub last_opcode : Option DaveOpcode

abbrev pub initial_state : DaveProtocolState
initial_state = record {
  seen = false;
  enabled = false;
  negotiated = false;
  protocol_version = none;
  epoch = none;
  transition_id = none;
  pending_transition = none;
  pending_epoch = none;
  external_sender = none;
  key_package = none;
  commit_welcome = none;
  welcome = none;
  announced_commit_transition = none;
  proposals = [];
  invalid_commit_welcomes = [];
  last_opcode = none;
}

-- `version not in (None, 0)`
abbrev pub is_active : Option ℕ → Bool
is_active none = false
is_active (some v) = not (v == 0)

unfoldable pub requires_backend : DaveProtocolState → Bool
requires_backend s = is_active s.protocol_version || is_some s.pending_epoch

pub record Snapshot : Type 0 where
  pub seen : Bool
  pub enabled : Bool
  pub negotiated : Bool
  pub protocol_version : Option ℕ
  pub epoch : Option ℕ
  pub transition_id : Option Value
  pub has_pending_transition : Bool
  pub has_pending_epoch : Bool
  pub has_external_sender : Bool
  pub has_key_package : Bool
  pub has_commit_welcome : Bool
  pub has_welcome : Bool
  pub proposals_count : ℕ
  pub invalid_commit_welcomes_count : ℕ
  pub last_opcode : Option DaveOpcode

unfoldable pub snapshot : DaveProtocolState → Snapshot
snapshot s = record {
  seen = s.seen;
  enabled = s.enabled;
  negotiated = s.negotiated;
  protocol_version = s.protocol_version;
  epoch = s.epoch;
  transition_id = s.transition_id;
  has_pending_transition = is_some s.pending_transition;
  has_pending_epoch = is_some s.pending_epoch;
  has_external_sender = is_some s.external_sender;
  has_key_package = is_some s.key_package;
  has_commit_welcome = is_some s.commit_welcome;
  has_welcome = is_some s.welcome;
  proposals_count = length s.proposals;
  invalid_commit_welcomes_count = length s.invalid_commit_welcomes;
  last_opcode = s.last_opcode;
}
