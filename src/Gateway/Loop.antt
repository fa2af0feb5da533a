-- ===== src/Gateway/Loop.antt =====
-- The receive loop of gateway_runtime.py, and `Bot.start` and `Bot.stop` around it. The steps of a loop
-- are what its socket brings, and between them the rounds of the heartbeat's task, each taken as a
-- whole. Where the list ends, the other side has closed the socket.
pub mod Inflate
pub mod Stopped
pub mod Dropped
pub mod Exits
use vaidcord.Base.{
  length, drop, ℕ, ◌-◌, ◌==◌, Bool, true, false, not, ◌&&◌, ◌||◌, Option, none, some, List, [], ◌∷◌,
  ◌++◌, if◌then◌else◌, is_some, ltb,
}
use vaidcord.Base.Action.{Action, pure, raise, lift, gets, modify, ◌>>=◌, ◌>>◌}
use vaidcord.Base.Result.{
  Raised, Result, ok, err, key_error, runtime_error, cancelled_error, other_error,
}
use vaidcord.Gateway.{
  connecting, stopping, stopped, Config, slept, Gateway, Services, Method, note, set_state,
  raise_if, suspend,
}
use vaidcord.Gateway.Connection.{
  is_open, connect, reconnect, send_heartbeat, heartbeat_round, handle_hello, stop_runtime,
}
use vaidcord.Gateway.Updates.{Dispatch, handle_dispatch}

-- A payload by its opcode: 0, 1, 7, 9, 10, 11 or any other. HELLO may lack its interval.
pub data Payload (D : Type 0) : Type 0 where
  dispatch : Dispatch D → Payload D
  heartbeat_request reconnect_request heartbeat_ack other_payload : Payload D
  invalid_session : Bool → Payload D
  hello : Option ℕ → Payload D

-- A message of the socket by its type, a text with what `json.loads` gives for it.
pub data Message (D : Type 0) : Type 0 where
  text : Result (Payload D) → Message D
  binary : List ℕ → Message D
  closed_message error_message other_message : Message D

pub data Step (D : Type 0) : Type 0 where
  arrives : Message D → Step D
  heartbeat_due : Step D

abbrev pub same_bytes : List ℕ → List ℕ → Bool
same_bytes [] [] = true
same_bytes [] (b ∷ bs) = false
same_bytes (a ∷ more) [] = false
same_bytes (a ∷ more) (b ∷ bs) = a == b && same_bytes more bs

-- `len(buffer) >= 4 and buffer.endswith(b"\x00\x00\xff\xff")`
abbrev pub is_flushed : List ℕ → Bool
is_flushed buffer =
    not (ltb (length buffer) 4)
    && same_bytes (drop (length buffer - 4) buffer) (0 ∷ 0 ∷ 255 ∷ 255 ∷ [])

module _ {P Z D : Type 0} (config : Config P) (services : Services P Z (Payload D) D) where
  -- `_inflate`
  unfoldable pub inflate : List ℕ → Method P Z (Option (Payload D))
  inflate chunk g = elim g.inflator [
    | none ↦ (ok none, g)
    | some z ↦
        let buffer = g.compressed_buffer ++ chunk in
        let waiting = record g { compressed_buffer = buffer } in
        elim (is_flushed buffer) [
          | false ↦ (ok none, waiting)
          | true ↦ elim (services.decompress z buffer) [
            | none ↦ (err other_error, waiting)
            | some (z', r) ↦ elim r [
              | ok payload ↦
                  (ok (some payload), record g { inflator = some z'; compressed_buffer = [] })
              | err e ↦ (err e, record g { inflator = some z'; compressed_buffer = [] })
            ]
          ]
        ]
  ]

  unfoldable pub handle_ack : Gateway P Z → Gateway P Z
  handle_ack g = elim g.last_heartbeat_sent_at [
    | none ↦ record g { heartbeat_ack_received = true }
    | some at ↦ record g {
      heartbeat_ack_received = true;
      latency = services.monotonic g.trace - at;
    }
  ]

  -- `_handle_gateway_payload`: true where the loop must exit.
  unfoldable pub handle_gateway_payload : Payload D → Method P Z Bool
  unfolding handle_ack
  handle_gateway_payload (dispatch u) = do handle_dispatch config services u; pure false
  handle_gateway_payload heartbeat_request = do send_heartbeat config services; pure false
  handle_gateway_payload reconnect_request = do reconnect config services false true; pure true
  handle_gateway_payload (invalid_session resumable) = do
    modify (note slept)
    suspend
    reconnect config services false resumable
    pure true
  handle_gateway_payload (hello none) = raise key_error
  handle_gateway_payload (hello (some interval)) = do
    handle_hello config services interval
    pure false
  handle_gateway_payload heartbeat_ack = do modify handle_ack; pure false
  handle_gateway_payload other_payload = pure false

  unfoldable pub handle_inflated : Option (Payload D) → Method P Z Bool
  unfolding handle_gateway_payload
  handle_inflated none = pure false
  handle_inflated (some payload) = handle_gateway_payload payload

  -- The body of the loop: true where the loop ends.
  unfoldable pub handle_message : Message D → Method P Z Bool
  unfolding inflate handle_inflated
  handle_message (text payload) = do p ← lift payload; handle_gateway_payload p
  handle_message (binary chunk) = do p ← inflate chunk; handle_inflated p
  handle_message closed_message = pure true
  handle_message error_message = pure true
  handle_message other_message = pure false

  -- A round of the heartbeat's task: what it raises ends the task alone.
  unfoldable pub run_heartbeat : Gateway P Z → Gateway P Z
  run_heartbeat g = elim (g.heartbeat_alive && (g.running && is_some g.heartbeat_interval)) [
    | false ↦ g
    | true ↦
        let (r, g') = heartbeat_round config services g in
        elim r [
          | ok goes_on ↦ record g' { heartbeat_alive = goes_on }
          | err e ↦ record g' { heartbeat_alive = false }
        ]
  ]

  unfoldable pub run_loop : List (Step D) → Method P Z (Unit {0})
  unfolding handle_message run_heartbeat
  run_loop [] g = (ok tt, g)
  run_loop (heartbeat_due ∷ steps) g =
      let g' = run_heartbeat g in
      elim (is_open g'.ws) [ true ↦ run_loop steps g' | false ↦ (ok tt, g') ]
  run_loop (arrives m ∷ steps) g =
      let (r, g') = handle_message m g in
      elim r [
        | err e ↦ (err e, g')
        | ok exits ↦ elim exits [ true ↦ (ok tt, g') | false ↦ run_loop steps g' ]
      ]

  -- `except CancelledError: return`
  abbrev pub catch_cancelled : Result (Unit {0}) → Result (Unit {0})
  catch_cancelled (ok u) = ok u
  catch_cancelled (err cancelled_error) = ok tt
  catch_cancelled (err e) = err e

  -- `GatewayRuntime.run`
  unfoldable pub run : List (Step D) → Method P Z (Unit {0})
  unfolding run_loop
  run steps g = elim (is_some g.ws) [
    | false ↦ (ok tt, g)
    | true ↦ let (r, g') = run_loop steps g in (catch_cancelled r, g')
  ]

  -- `Bot.stop`
  -- `Bot.stop`; the task that retries the synchronisation of commands, which it cancels, is left out.
  unfoldable pub stop : Method P Z (Unit {0})
  stop = do
    modify (λ g. record g { running = false; state = stopping; is_ready = false })
    stop_runtime config services
    g ← gets (λ g. g)
    raise_if (services.close_api_client g.trace)
    raise_if (services.close_session g.trace)
    set_state stopped

  -- `try: … except asyncio.CancelledError: … finally: await self.stop()`
  unfoldable pub finish : Result (Unit {0}) → Method P Z (Unit {0})
  unfolding stop
  finish r g =
      let (q, g') = stop g in elim q [ ok u ↦ (catch_cancelled r, g') | err e ↦ (err e, g') ]

  -- `Bot.start`
  unfoldable pub start : List (Step D) → Method P Z (Unit {0})
  unfolding run finish
  start steps g = elim g.running [
    | true ↦ (err runtime_error, g)
    | false ↦
        let (r, g') =
          (do
            modify (λ g. record g { running = true; state = connecting })
            connect config services false
            run steps)
            g in
        finish r g'
  ]
