-- ===== src/Voice/Connection.antt =====
-- `class VoiceConnection` in vaidcord-py/src/vaidcord/voice/connection.py as a client of the voice
-- gateway, with the data of models.py. What a service answers is a function of everything that was
-- done before. `S` is the state of the DAVE backend.
pub mod Policy
pub mod Payloads
pub mod Closing
pub mod Handshake
pub mod Reader
mod Examples
use Prim.Native.String.{String}
use vaidcord.Base.{ℕ, Bool, true, false, not, Option, none, some, List, [], ◌∷◌}
use vaidcord.Base.Action.{Action, modify, pure, raise}
use vaidcord.Base.Bytes.{Bytes}
use vaidcord.Base.Result.{Raised, Result, ok, err, runtime_error}
use vaidcord.Voice.Crypto.{VoiceBox}
use vaidcord.Voice.Dave.Controller.{Controller, GatewayData}
use vaidcord.Voice.Dave.State.{DaveOutboundPayload}
use vaidcord.Voice.Manager.{VoiceState, VoiceServerUpdate}
use vaidcord.Voice.Sender.{SessionDescription}

-- The gateway's part of `VoiceGatewayConfig`; `dave_backend` is whether one is given.
pub record VoiceGatewayConfig : Type 0 where
  pub version : ℕ
  pub max_dave_protocol_version : ℕ
  pub dave_backend : Bool
  pub preferred_modes : List String

pub record VoiceReady : Type 0 where
  pub ssrc : ℕ
  pub ip : String
  pub port : ℕ
  pub modes : List String

pub record VoiceUdpClient : Type 0 where
  pub ip : String
  pub port : ℕ
  pub connected : Bool

-- The `d` of a payload by its opcode: 8, 6, 2, 4, 5, 9, 12, 13 and any other. READY and the session
-- description are none where a key that is read by `data[…]` is missing. Ids are numbers.
pub data Body : Type 0 where
  hello : Option ℕ → Body
  heartbeat_ack resumed : Body
  ready : Option VoiceReady → Body
  described : GatewayData → Option SessionDescription → Body
  speaking : Option ℕ → Option ℕ → Option ℕ → Body
  video : Option ℕ → Option ℕ → Body
  client_disconnect : Option ℕ → Body
  other_body : ℕ → GatewayData → Body

pub record Payload : Type 0 where
  pub seq : Option ℕ
  pub body : Body

pub data Message : Type 0 where
  text : Payload → Message
  binary : Bytes → Message
  other_message : Message

-- What comes behind a socket's last message: the other side closes with a code, or nothing.
pub data Ending : Type 0 where
  closes : Option ℕ → Ending
  stays_open : Ending

pub record Socket : Type 0 where
  pub messages : List Message
  pub ending : Ending
  pub closed : Bool

pub data Frame : Type 0 where
  identify_frame : ℕ → ℕ → Option String → String → ℕ → Frame
  resume_frame : ℕ → Option String → String → Option ℕ → Frame
  select_protocol_frame : String → ℕ → String → Frame
  speaking_frame : ℕ → ℕ → ℕ → Frame
  heartbeat_frame : Option ℕ → Frame
  dave_frame : DaveOutboundPayload → Frame

-- What a connection does to the world.
pub data Effect : Type 0 where
  connected : String → ℕ → Effect
  sent : Frame → Effect
  closed_socket closed_udp discovered asked_join : Effect
  called : ℕ → ℕ → ℕ → ℕ → Effect
  speaking_started : ℕ → ℕ → Effect
  speaking_stopped : ℕ → Effect
  player_stopped receiver_stopped task_cancelled : Effect
  slept : ℕ → Effect

-- `heartbeat` is the interval of the heartbeat's task, `last_sequence` none for -1, `dave.sent` the
-- queue of DAVE's replies. Of the player and the receiver only the presence is kept.
pub record Connection (S : Type 0) : Type 0 where
  pub guild_id : ℕ
  pub user_id : ℕ
  pub state : VoiceState
  pub server : VoiceServerUpdate
  pub ready : Option VoiceReady
  pub session_description : Option SessionDescription
  pub udp : Option VoiceUdpClient
  pub ws : Option Socket
  pub heartbeat : Option ℕ
  pub reader : Bool
  pub last_sequence : Option ℕ
  pub last_heartbeat_sent_at : Option ℕ
  pub latency : ℕ
  pub voice_box : Option VoiceBox
  pub ssrc_map : List (ℕ × ℕ)
  pub speaking_callbacks : List ℕ
  pub closing : Bool
  pub resumed_event : Bool
  pub player : Bool
  pub receiver : Bool
  pub dave : Controller S
  pub trace : List Effect

-- What the code calls: aiohttp's sockets, the UDP client's IP discovery, the clock, and of the bot
-- its voice manager, if it has one.
pub record Services : Type 0 where
  pub ws_connect : List Effect → Result Socket
  pub send_json : List Effect → Option Raised
  pub discover_ip : List Effect → Result (String × ℕ)
  pub monotonic : List Effect → ℕ
  pub has_manager : Bool
  pub request_join : List Effect → Result (VoiceState × VoiceServerUpdate)

abbrev pub Method : Type 0 → Type 0 → Type 0
Method S A = Action (Connection S) A

-- `self._ws is not None and not self._ws.closed`
abbrev pub is_open : Option Socket → Bool
is_open none = false
is_open (some s) = not s.closed

module _ {S : Type 0} where
  abbrev pub note : Effect → Connection S → Connection S
  note e c = record c { trace = e ∷ c.trace }

  abbrev pub raise_if : Option Raised → Method S (Unit {0})
  raise_if none = pure tt
  raise_if (some e) = raise e

  -- `ssrc_to_user` reads the map, `is_connected` the socket.
  abbrev pub is_connected : Connection S → Bool
  is_connected c = elim c.closing [ true ↦ false | false ↦ is_open c.ws ]

  -- `_send`
  unfoldable pub send : Services → Frame → Method S (Unit {0})
  send services frame c = elim (is_open c.ws) [
    | false ↦ (err runtime_error, c)
    | true ↦ elim (services.send_json c.trace) [
      | some e ↦ (err e, c)
      | none ↦ (ok tt, note (sent frame) c)
    ]
  ]
