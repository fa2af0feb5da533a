-- ===== src/Gateway/Connection.antt =====
-- The connection of `GatewayRuntime`: opening, IDENTIFY and RESUME, heartbeats, reconnecting, closing.
pub mod Hello
use Prim.Native.String.{String}
use vaidcord.Base.{
  ℕ, ◌-◌, Bool, true, false, not, ◌&&◌, Option, none, some, List, [], ◌∷◌, if◌then◌else◌, is_some,
  ltb,
}
use vaidcord.Base.Action.{Action, pure, raise, gets, modify, ◌>>=◌, ◌>>◌}
use vaidcord.Base.Result.{Raised, Result, ok, err, cancelled_error}
use vaidcord.Gateway.{
  BotState, connecting, identifying, reconnecting, Config, Frame, Members, user_ids, query_text,
  presence_frame, members_frame, heartbeat_frame, identify_frame, resume_frame, Effect,
  asked_gateway, connected, sent, closed_socket, task_created, task_cancelled, slept, Socket,
  Gateway, Services, Method, note, set_state, raise_if, suspend,
}

abbrev pub is_open : Option Socket → Bool
is_open none = false
is_open (some s) = not s.closed

abbrev pub close_socket : Option Socket → Option Socket
close_socket none = none
close_socket (some s) = some (record s { closed = true })

-- `gateway_info.get("url", …)`
abbrev pub or_url : Option String → String → String
or_url none default = default
or_url (some url) default = url

module _ {P Z L D : Type 0} (config : Config P) (services : Services P Z L D) where
  -- `if self._ws and not self._ws.closed: await self._ws.close()`. The socket is closed before the
  -- wait for the other side.
  unfoldable pub close_ws : Method P Z (Unit {0})
  close_ws g =
      if is_open g.ws
      then (do modify (λ g. note closed_socket (record g { ws = close_socket g.ws })); suspend) g
      else (ok tt, g)

  -- `GET /gateway/bot`
  unfoldable pub ask_gateway : Method P Z String
  ask_gateway = do
    suspend
    g ← gets (λ g. g)
    modify (note asked_gateway)
    elim (services.gateway_bot g.trace) [
      | ok url ↦ pure (or_url url config.gateway_url)
      | err e ↦ raise e
    ]

  unfoldable pub choose_url : Bool → Method P Z String
  unfolding ask_gateway
  choose_url resume g = elim resume [
    | true ↦ elim g.resume_gateway_url [
      | some url ↦ (ok url, record g { resume_on_hello = true })
      | none ↦
          (do url ← ask_gateway; modify (λ g. record g { resume_on_hello = false }); pure url) g
    ]
    | false ↦ (do url ← ask_gateway; modify (λ g. record g { resume_on_hello = false }); pure url) g
  ]

  unfoldable pub prepare_inflator : Gateway P Z → Gateway P Z
  prepare_inflator g =
      if config.compress
      then record g { inflator = some services.decompressobj; compressed_buffer = [] }
      else record g { inflator = none }

  unfoldable pub open_ws : String → Method P Z (Unit {0})
  open_ws url = do
    suspend
    g ← gets (λ g. g)
    raise_if (services.ws_connect g.trace)
    modify (λ g.
        note (connected url config.api_version config.compress)
          (record g { ws = some (record { url = url; closed = false }) }))

  unfoldable pub connect : Bool → Method P Z (Unit {0})
  unfolding choose_url prepare_inflator open_ws
  connect resume = do
    set_state connecting
    url ← choose_url resume
    modify prepare_inflator
    open_ws url

  unfoldable pub send_payload : Frame P → Method P Z (Unit {0})
  send_payload frame g =
      if is_open g.ws
      then (do raise_if (services.send_json g.trace); modify (note (sent frame))) g
      else (ok tt, g)

  abbrev pub shard : Option (ℕ × ℕ)
  shard = if ltb 1 config.shard_count then some (config.shard_id, config.shard_count) else none

  unfoldable pub identify : Method P Z (Unit {0})
  unfolding send_payload
  identify = do
    set_state identifying
    send_payload (identify_frame config.token config.intents shard config.presence)

  unfoldable pub resume : Method P Z (Unit {0})
  unfolding send_payload identify
  resume g = elim g.session_id [
    | none ↦ identify g
    | some id ↦ send_payload (resume_frame config.token id g.sequence) g
  ]

  -- `self._heartbeat_task.cancel()`, called by the heartbeat's task itself or by another.
  unfoldable pub cancel_heartbeat : Bool → Gateway P Z → Gateway P Z
  cancel_heartbeat by_heartbeat g =
      if g.heartbeat_task
      then note task_cancelled
          (record g { heartbeat_task = false; heartbeat_alive = false; must_cancel = by_heartbeat })
      else g

  unfoldable pub reconnect : Bool → Bool → Method P Z (Unit {0})
  unfolding cancel_heartbeat close_ws connect
  reconnect by_heartbeat resume = do
    set_state reconnecting
    modify (cancel_heartbeat by_heartbeat)
    close_ws
    connect resume

  unfoldable pub send_heartbeat : Method P Z (Unit {0})
  unfolding send_payload
  send_heartbeat = do
    modify (λ g. record g {
      heartbeat_ack_received = false;
      last_heartbeat_sent_at = some (services.monotonic g.trace);
    })
    g ← gets (λ g. g)
    send_payload (heartbeat_frame g.sequence)

  -- One round of `_heartbeat`, after its `sleep`: true where the loop goes on.
  unfoldable pub heartbeat_round : Method P Z Bool
  unfolding reconnect send_heartbeat
  heartbeat_round = do
    modify (note slept)
    g ← gets (λ g. g)
    if g.heartbeat_ack_received
        then (do send_heartbeat; pure true)
        else (do reconnect true true; pure false)

  -- `create_task(self._heartbeat())`, after cancelling the task before it.
  unfoldable pub restart_heartbeat : Gateway P Z → Gateway P Z
  restart_heartbeat g =
      note task_created (record (if g.heartbeat_task then note task_cancelled g else g) {
        heartbeat_task = true;
        heartbeat_alive = true;
      })

  -- `op == 10`
  unfoldable pub handle_hello : ℕ → Method P Z (Unit {0})
  unfolding resume identify restart_heartbeat
  handle_hello interval = do
    modify (λ g. record g { heartbeat_interval = some interval })
    g ← gets (λ g. g)
    if g.resume_on_hello
        then (do modify (λ g. record g { resume_on_hello = false }); resume)
        else identify
    modify restart_heartbeat

  -- `GatewayRuntime.stop`
  unfoldable pub stop_runtime : Method P Z (Unit {0})
  unfolding cancel_heartbeat close_ws
  stop_runtime = do modify (cancel_heartbeat false); close_ws; modify (λ g. record g { ws = none })

  unfoldable pub update_presence : String → List P → Bool → Option ℕ → Method P Z (Unit {0})
  unfolding send_payload
  update_presence status activities afk since =
      send_payload (presence_frame since activities status afk)

  abbrev pub members_of : String → Option (List ℕ) → Members
  members_of query none = query_text query
  members_of query (some ids) = user_ids ids

  unfoldable pub request_guild_members :
      ℕ → String → ℕ → Bool → Option (List ℕ) → Option String → Method P Z (Unit {0})
  unfolding send_payload
  request_guild_members guild_id query limit presences ids nonce =
      send_payload (members_frame guild_id (members_of query ids) limit presences nonce)
