-- ===== src/Gateway/Examples.antt =====
-- A gateway whose services answer, with numbers for presences, decompressors and data.
use vaidcord.Base.{ℕ, ◌≡◌, refl, true, false, none, some, List, [], ◌∷◌, ◌++◌}
use vaidcord.Base.Result.{ok}
use vaidcord.Gateway.{
  idle, ready, Config, sent, closed_socket, task_created, task_cancelled, slept, Gateway, Services,
  message_create_kind, resume_frame,
}
use vaidcord.Gateway.Connection.{
  is_open, connect, choose_url, prepare_inflator, open_ws, handle_hello,
}
use vaidcord.Gateway.Connection.Hello.{handle_hello-connect, cancelled_first}
use vaidcord.Gateway.Loop.{
  Payload, reconnect_request, heartbeat_request, hello, text, Step, arrives, heartbeat_due, inflate,
  run, run_loop, start,
}
use vaidcord.Gateway.Loop.Dropped.{steps_of, run_loop_drops}
use vaidcord.Gateway.Loop.Exits.{start-restart, run-missed_ack}
use vaidcord.Gateway.Loop.Inflate.{IsWaiting, feed, inflate-feed}
use vaidcord.Gateway.Loop.Stopped.{Ends, start_stops}
use vaidcord.Gateway.Updates.{Dispatch}
use vaidcord.Gateway.Updates.Pending.{Waits}

abbrev config : Config ℕ
config = record {
  token = "token";
  intents = 513;
  shard_id = 0;
  shard_count = 1;
  presence = none;
  compress = true;
  api_version = 10;
  gateway_url = "wss://gateway";
  ignore_self_messages = true;
}

abbrev services : Services ℕ ℕ (Payload ℕ) ℕ
services = record {
  gateway_bot = λ trace. ok (some "wss://discord");
  ws_connect = λ trace. none;
  send_json = λ trace. none;
  monotonic = λ trace. 7;
  decompressobj = 0;
  decompress = λ z bytes. some (1, ok heartbeat_request);
  parse_user = λ d. ok d;
  parse_guilds = λ d. none;
  session_id_of = λ d. some "session";
  resume_gateway_url_of = λ d. some "wss://resume";
  message_author = λ kind d. ok (some d);
  handle_voice_event = λ trace. none;
  sync_commands = λ trace. none;
  handle_interaction_create = λ trace. none;
  propagate_event = λ trace. none;
  close_api_client = λ trace. none;
  close_session = λ trace. none;
}

abbrev fresh : Gateway ℕ ℕ
fresh = record {
  state = idle;
  running = false;
  sequence = none;
  session_id = none;
  resume_gateway_url = none;
  is_ready = false;
  drop_pending_updates = true;
  user = none;
  ws = none;
  heartbeat_interval = none;
  heartbeat_task = false;
  heartbeat_alive = false;
  last_heartbeat_sent_at = none;
  heartbeat_ack_received = true;
  resume_on_hello = false;
  latency = 0;
  inflator = none;
  compressed_buffer = [];
  must_cancel = false;
  trace = [];
}

abbrev known : Gateway ℕ ℕ
known = record fresh {
  session_id = some "session";
  sequence = some 42;
  resume_gateway_url = some "wss://resume";
}

connect-known : (connect config services true known).0 ≡ ok tt
unfolding connect choose_url prepare_inflator open_ws
connect-known = refl

handle_hello-connect_example :
    (handle_hello config services 41250 (connect config services true known).1).1.trace
    ≡ task_created
      ∷ cancelled_first config services (connect config services true known).1.heartbeat_task (
          sent (resume_frame "token" "session" (some 42))
          ∷ (connect config services true known).1.trace)
handle_hello-connect_example =
    handle_hello-connect config services true known 41250 connect-known refl

abbrev update : Dispatch ℕ
update = record { number = some 3; kind = some (some message_create_kind); body = some 9 }

run_loop_drops_example :
    Waits fresh (run_loop config services (steps_of (update ∷ update ∷ [])) fresh).1
run_loop_drops_example = run_loop_drops config services (update ∷ update ∷ []) fresh refl refl refl

abbrev steps : List (Step ℕ)
steps = arrives (text (ok (hello (some 41250)))) ∷ heartbeat_due ∷ heartbeat_due ∷ []

start_stops_example : Ends config services (start config services steps fresh)
start_stops_example = start_stops config services steps fresh refl refl

start-restart_example :
    start config services (steps ++ arrives (text (ok reconnect_request)) ∷ steps) fresh
    ≡ start config services (steps ++ arrives (text (ok reconnect_request)) ∷ []) fresh
start-restart_example = start-restart config services steps reconnect_request steps fresh refl

-- A connection with a heartbeat that was not acknowledged.
abbrev silent : Gateway ℕ ℕ
silent = record known {
  state = ready;
  running = true;
  is_ready = true;
  ws = some (record { url = "wss://discord"; closed = false });
  heartbeat_interval = some 41250;
  heartbeat_task = true;
  heartbeat_alive = true;
  heartbeat_ack_received = false;
}

run-missed_ack_example :
    ((run config services (heartbeat_due ∷ steps) silent).0 ≡ ok tt)
    × (is_open (run config services (heartbeat_due ∷ steps) silent).1.ws ≡ false)
    × ((run config services (heartbeat_due ∷ steps) silent).1.trace
        ≡ closed_socket ∷ task_cancelled ∷ slept ∷ [])
run-missed_ack_example = run-missed_ack config services steps silent refl refl refl refl refl refl

abbrev compressing : Gateway ℕ ℕ
compressing = record silent { inflator = some 0; compressed_buffer = 9 ∷ [] }

chunks_wait : IsWaiting (9 ∷ []) ((1 ∷ 2 ∷ []) ∷ (3 ∷ 0 ∷ 0 ∷ []) ∷ [])
unfolding IsWaiting
chunks_wait = (refl, (refl, tt))

inflate-feed_example :
    inflate config services
      (255 ∷ 255 ∷ [])
      (feed config services ((1 ∷ 2 ∷ []) ∷ (3 ∷ 0 ∷ 0 ∷ []) ∷ []) compressing)
    ≡ (
      ok (some heartbeat_request),
      record compressing { inflator = some 1; compressed_buffer = [] },
    )
inflate-feed_example =
    inflate-feed config services ((1 ∷ 2 ∷ []) ∷ (3 ∷ 0 ∷ 0 ∷ []) ∷ []) (255 ∷ 255 ∷ []) compressing
      0 1 heartbeat_request refl chunks_wait refl refl
