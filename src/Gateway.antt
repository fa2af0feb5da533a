-- ===== src/Gateway.antt =====
-- vaidcord-py/src/vaidcord/gateway_runtime.py, with the parts of bot.py that share its state: a bot's
-- connection to the gateway, its session and its heartbeat. What a service answers is a function of
-- everything that was done before.
pub mod Connection
pub mod Updates
pub mod Cancelled
pub mod Loop
mod Examples
use Prim.Native.String.{String}
use vaidcord.Base.{ℕ, Bool, true, false, Option, none, some, List, [], ◌∷◌}
use vaidcord.Base.Action.{Action, raise, modify, pure}
use vaidcord.Base.Result.{Raised, Result, ok, err, cancelled_error}

pub data BotState : Type 0 where
  idle connecting identifying ready reconnecting stopping stopped : BotState

-- The gateway's part of `BotConfig`.
pub record Config (P : Type 0) : Type 0 where
  pub token : String
  pub intents : ℕ
  pub shard_id : ℕ
  pub shard_count : ℕ
  pub presence : Option P
  pub compress : Bool
  pub api_version : ℕ
  pub gateway_url : String
  pub ignore_self_messages : Bool

-- Which members are asked for: those with the ids, or else those that a query finds.
pub data Members : Type 0 where
  user_ids : List ℕ → Members
  query_text : String → Members

-- The payloads that the client sends, by opcode. Presences and activities are of any type.
pub data Frame (P : Type 0) : Type 0 where
  heartbeat_frame : Option ℕ → Frame P
  identify_frame : String → ℕ → Option (ℕ × ℕ) → Option P → Frame P
  resume_frame : String → String → Option ℕ → Frame P
  presence_frame : Option ℕ → List P → String → Bool → Frame P
  members_frame : ℕ → Members → ℕ → Bool → Option String → Frame P

-- The kinds of updates that `_handle_dispatch` tells apart.
pub data Kind : Type 0 where
  ready_kind message_create_kind message_update_kind interaction_create_kind : Kind
  other_kind : ℕ → Kind

-- What a bot does to the world.
pub data Effect (P : Type 0) : Type 0 where
  asked_gateway : Effect P
  connected : String → ℕ → Bool → Effect P
  sent : Frame P → Effect P
  closed_socket task_created task_cancelled slept : Effect P
  told_voice told_interaction : Effect P
  propagated : Kind → Effect P

pub record Socket : Type 0 where
  pub url : String
  pub closed : Bool

-- `GatewayRuntime` and the bot that it belongs to. `must_cancel` holds from the moment that the
-- running task cancels itself. `heartbeat_task` is whether the attribute is set and `heartbeat_alive`
-- whether its task runs. `Z` is the state of a zlib decompressor.
pub record Gateway (P Z : Type 0) : Type 0 where
  pub state : BotState
  pub running : Bool
  pub sequence : Option ℕ
  pub session_id : Option String
  pub resume_gateway_url : Option String
  pub is_ready : Bool
  pub drop_pending_updates : Bool
  pub user : Option ℕ
  pub ws : Option Socket
  pub heartbeat_interval : Option ℕ
  pub heartbeat_task : Bool
  pub heartbeat_alive : Bool
  pub last_heartbeat_sent_at : Option ℕ
  pub heartbeat_ack_received : Bool
  pub resume_on_hello : Bool
  pub latency : ℕ
  pub inflator : Option Z
  pub compressed_buffer : List ℕ
  pub must_cancel : Bool
  pub trace : List (Effect P)

-- What the code calls: Discord's REST endpoint, aiohttp's sockets, the clock, zlib with `json.loads`,
-- and of the bot its parsers, its voice manager, its commands, its handlers, and the closing of its
-- REST client and of its session. `decompress` is none
-- where zlib raises, and the rest of the data is an update's `d`.
pub record Services (P Z L D : Type 0) : Type 0 where
  pub gateway_bot : List (Effect P) → Result (Option String)
  pub ws_connect : List (Effect P) → Option Raised
  pub send_json : List (Effect P) → Option Raised
  pub monotonic : List (Effect P) → ℕ
  pub decompressobj : Z
  pub decompress : Z → List ℕ → Option (Z × Result L)
  pub parse_user : D → Result ℕ
  pub parse_guilds : D → Option Raised
  pub session_id_of : D → Option String
  pub resume_gateway_url_of : D → Option String
  pub message_author : Kind → D → Result (Option ℕ)
  pub handle_voice_event : List (Effect P) → Option Raised
  pub sync_commands : List (Effect P) → Option Raised
  pub handle_interaction_create : List (Effect P) → Option Raised
  pub propagate_event : List (Effect P) → Option Raised
  pub close_api_client : List (Effect P) → Option Raised
  pub close_session : List (Effect P) → Option Raised

abbrev pub Method : Type 0 → Type 0 → Type 0 → Type 0
Method P Z A = Action (Gateway P Z) A

module _ {P Z : Type 0} where
  abbrev pub note : Effect P → Gateway P Z → Gateway P Z
  note e g = record g { trace = e ∷ g.trace }

  abbrev pub set_state : BotState → Method P Z (Unit {0})
  set_state s = modify (λ g. record g { state = s })

  abbrev pub raise_if : Option Raised → Method P Z (Unit {0})
  raise_if none = pure tt
  raise_if (some e) = raise e

  -- An `await` that suspends: a task that has cancelled itself is cancelled here.
  abbrev pub suspend : Method P Z (Unit {0})
  suspend g = elim g.must_cancel [
    | true ↦ (err cancelled_error, record g { must_cancel = false })
    | false ↦ (ok tt, g)
  ]
