-- ===== src/Gateway/Loop/Stopped.antt =====
-- How `Bot.start` ends.
use mathlib.Core.Path.{subst}
use vaidcord.Base.{
  ℕ, ◌≡◌, refl, sym, ◌∙◌, ◌⊎◌, inl, inr, Option-cases, true, false, Option, none, some, List, [],
  ◌∷◌, arith,
}
use vaidcord.Base.Action.{◌>>◌, >>=-ends, >>=-ok}
use vaidcord.Base.Result.{Raised, Result, ok, err, Result-cases}
use vaidcord.Gateway.{
  connecting, slept, stopped, stopping, Config, Gateway, Services, Method, note, raise_if,
  set_state,
}
use vaidcord.Gateway.Connection.{connect, cancel_heartbeat, close_ws, stop_runtime}
use vaidcord.Gateway.Loop.{
  Payload, dispatch, heartbeat_request, heartbeat_ack, reconnect_request, other_payload,
  invalid_session, hello, Message, text, binary, closed_message, error_message, other_message, Step,
  arrives, heartbeat_due, handle_inflated, inflate, handle_ack, handle_gateway_payload,
  handle_message, run_heartbeat, run_loop, run, stop, finish, start, catch_cancelled,
}
use vaidcord.Gateway.Cancelled.{
  connect_clears, reconnect_clears, handle_hello_keeps, send_heartbeat_keeps, heartbeat_round_keeps,
  handle_dispatch_keeps,
}

pub record IsStopped {P Z : Type 0} (g : Gateway P Z) : Type 0 where
  pub not_running : g.running ≡ false
  pub not_ready : g.is_ready ≡ false
  pub no_socket : g.ws ≡ none
  pub no_heartbeat : g.heartbeat_task ≡ false

module _ {P Z D : Type 0} (config : Config P) (services : Services P Z (Payload D) D) where
  -- The closing of the REST client or of the session raised, and the bot is left stopping.
  pub record IsRefused (r : Result (Unit {0})) (g : Gateway P Z) : Type 0 where
    pub left : g.state ≡ stopping
    pub exception : Raised
    pub raised : r ≡ err exception
    pub refused :
        (services.close_api_client g.trace ≡ some exception)
        ⊎ (services.close_session g.trace ≡ some exception)

  -- How a call that stops the bot ends.
  abbrev pub Ends : Result (Unit {0}) × Gateway P Z → Type 0
  Ends (r, g) = IsStopped g × ((g.state ≡ stopped) ⊎ IsRefused r g)

  -- The runtime and the attributes of a bot that stops.
  abbrev halted : Gateway P Z → Gateway P Z
  halted g =
      (stop_runtime config services
        (record g { running = false; state = stopping; is_ready = false })).1

  halted-IsStopped :
      (g : Gateway P Z)
      → g.must_cancel ≡ false
      → IsStopped (halted g) × ((halted g).state ≡ stopping)
  unfolding stop_runtime cancel_heartbeat close_ws
  halted-IsStopped g h = (
    record {
      not_running = ground arith;
      not_ready = ground arith;
      no_socket = ground arith;
      no_heartbeat = ground arith;
    },
    ground arith,
  )

  stop_runtime_returns :
      (g : Gateway P Z) → g.must_cancel ≡ false → (stop_runtime config services g).0 ≡ ok tt
  unfolding stop_runtime cancel_heartbeat close_ws
  stop_runtime_returns g h = ground arith

  -- Behind the runtime: the REST client and the session are closed, and then the bot is stopped.
  abbrev closed_clients : Gateway P Z → Result (Unit {0}) × Gateway P Z
  closed_clients g =
      (raise_if (services.close_api_client g.trace)
          >> (raise_if (services.close_session g.trace) >> set_state stopped))
        g

  stopped-IsStopped : (g : Gateway P Z) → IsStopped g → IsStopped (record g { state = stopped })
  stopped-IsStopped g s = record {
    not_running = s.not_running;
    not_ready = s.not_ready;
    no_socket = s.no_socket;
    no_heartbeat = s.no_heartbeat;
  }

  closed_clients-Ends :
      (g : Gateway P Z) → IsStopped g × (g.state ≡ stopping) → Ends (closed_clients g)
  closed_clients-Ends g (s, t) =
      let closes = raise_if (services.close_session g.trace) >> set_state stopped in
      elim (Option-cases (services.close_api_client g.trace)) [
        | inr (x, e) ↦
            let same : closed_clients g ≡ (err x, g) = simp e in
            subst (λ x. Ends x) (sym same)
              (s, inr (record { left = t; exception = x; raised = refl; refused = inl e }))
        | inl e ↦
            let same : closed_clients g ≡ closes g = simp e in
            elim (Option-cases (services.close_session g.trace)) [
              | inr (x, k) ↦
                  let raises : closes g ≡ (err x, g) = simp k in
                  subst (λ x. Ends x) (sym (same ∙ raises))
                    (s, inr (record { left = t; exception = x; raised = refl; refused = inr k }))
              | inl k ↦
                  let returns : closes g ≡ (ok tt, record g { state = stopped }) = simp k in
                  subst (λ x. Ends x) (sym (same ∙ returns)) (stopped-IsStopped g s, inl refl)
            ]
      ]

  stop-Ends : (g : Gateway P Z) → g.must_cancel ≡ false → Ends (stop config services g)
  unfolding stop
  stop-Ends g h =
      let g' : Gateway P Z = record g { running = false; state = stopping; is_ready = false } in
      let e : stop config services g ≡ closed_clients (halted g) =
        >>=-ok (stop_runtime config services) (λ u. λ g. closed_clients g) g' tt
          (stop_runtime_returns g' h) in
      subst (λ x. Ends x) (sym e) (closed_clients-Ends (halted g) (halted-IsStopped g h))

  -- A stop that returned was not refused.
  returned-stopped :
      (r : Result (Unit {0})) (g : Gateway P Z)
      → r ≡ ok tt
      → (g.state ≡ stopped) ⊎ IsRefused r g
      → g.state ≡ stopped
  returned-stopped r g h (inl s) = s
  returned-stopped r g h (inr i) = let e = i.raised in absurd (cc (h, e))

  finish-Ends :
      (r : Result (Unit {0})) (g : Gateway P Z)
      → g.must_cancel ≡ false
      → Ends (finish config services r g)
  unfolding finish
  finish-Ends r g h =
      let (s, t) = stop-Ends g h in
      let g' = (stop config services g).1 in
      elim (Result-cases (stop config services g).0) [
        | inr (x, k) ↦
            let same : finish config services r g ≡ (err x, g') = simp (finish, k) in
            subst (λ x. Ends x) (sym same)
              (s, subst (λ r. (g'.state ≡ stopped) ⊎ IsRefused r g') k t)
        | inl (u, k) ↦
            let same : finish config services r g ≡ (catch_cancelled config services r, g') =
              simp (finish, k) in
            subst (λ x. Ends x) (sym same)
              (s, inl (returned-stopped (stop config services g).0 g' k t))
      ]

  inflate_keeps :
      (chunk : List ℕ) (g : Gateway P Z)
      → (inflate config services chunk g).1.must_cancel ≡ g.must_cancel
  unfolding inflate
  inflate_keeps chunk g = ground arith

  handle_gateway_payload_keeps :
      (p : Payload D) (g : Gateway P Z)
      → g.must_cancel ≡ false
      → (handle_gateway_payload config services p g).1.must_cancel ≡ false
  unfolding handle_gateway_payload handle_ack
  handle_gateway_payload_keeps (dispatch u) g h =
      ground (arith, handle_dispatch_keeps config services u g)
  handle_gateway_payload_keeps heartbeat_request g h =
      ground (arith, send_heartbeat_keeps config services g)
  handle_gateway_payload_keeps heartbeat_ack g h = ground arith
  handle_gateway_payload_keeps reconnect_request g h =
      ground (arith, reconnect_clears config services false true g)
  handle_gateway_payload_keeps other_payload g h = ground arith
  handle_gateway_payload_keeps (invalid_session r) g h =
      let c = reconnect_clears config services false r (note slept g) in ground (arith, c)
  handle_gateway_payload_keeps (hello none) g h = ground arith
  handle_gateway_payload_keeps (hello (some i)) g h =
      ground (arith, handle_hello_keeps config services i g)

  handle_inflated_keeps :
      (p : Option (Payload D)) (g : Gateway P Z)
      → g.must_cancel ≡ false
      → (handle_inflated config services p g).1.must_cancel ≡ false
  unfolding handle_inflated
  handle_inflated_keeps none g h = h
  handle_inflated_keeps (some p) g h = handle_gateway_payload_keeps p g h

  handle_message_keeps :
      (m : Message D) (g : Gateway P Z)
      → g.must_cancel ≡ false
      → (handle_message config services m g).1.must_cancel ≡ false
  unfolding handle_message
  handle_message_keeps (text (ok p)) g h = handle_gateway_payload_keeps p g h
  handle_message_keeps (text (err e)) g h = ground arith
  handle_message_keeps (binary chunk) g h =
      >>=-ends (inflate config services chunk) (handle_inflated config services) g
        (λ x. x.must_cancel ≡ false) (λ e k. inflate_keeps chunk g ∙ h)
        (λ p k.
          handle_inflated_keeps p (inflate config services chunk g).1 (inflate_keeps chunk g ∙ h))
  handle_message_keeps closed_message g h = ground arith
  handle_message_keeps error_message g h = ground arith
  handle_message_keeps other_message g h = ground arith

  run_heartbeat_keeps :
      (g : Gateway P Z)
      → g.must_cancel ≡ false
      → (run_heartbeat config services g).must_cancel ≡ false
  unfolding run_heartbeat
  run_heartbeat_keeps g h = ground (arith, heartbeat_round_keeps config services g h)

  run_loop_keeps :
      (steps : List (Step D)) (g : Gateway P Z)
      → g.must_cancel ≡ false
      → (run_loop config services steps g).1.must_cancel ≡ false
  unfolding run_loop
  run_loop_keeps [] g h = h
  run_loop_keeps (heartbeat_due ∷ steps) g h =
      let a = run_heartbeat_keeps g h in
      ground (arith, a, run_loop_keeps steps (run_heartbeat config services g) a)
  run_loop_keeps (arrives m ∷ steps) g h =
      let a = handle_message_keeps m g h in
      ground (arith, a, run_loop_keeps steps (handle_message config services m g).1 a)

  run_keeps :
      (steps : List (Step D)) (g : Gateway P Z)
      → g.must_cancel ≡ false
      → (run config services steps g).1.must_cancel ≡ false
  unfolding run
  run_keeps steps g h = ground (arith, run_loop_keeps steps g h)

  -- `start` of a bot that does not run ends with the bot halted, for every sequence of messages and
  -- heartbeats and whatever the services answer or raise: it does not run, is not ready, and has no
  -- socket and no heartbeat. Its state is stopped, unless closing the REST client or the session raised:
  -- then `start` raises and the state is left at stopping.
  pub start_stops :
      (steps : List (Step D)) (g : Gateway P Z)
      → g.running ≡ false
      → g.must_cancel ≡ false
      → Ends (start config services steps g)
  unfolding start run finish
  start_stops steps g h k =
      let s : Gateway P Z = record g { running = true; state = connecting } in
      let body : Method P Z (Unit {0}) =
        connect config services false >> run config services steps in
      let kept =
        >>=-ends (connect config services false) (λ _. run config services steps) s
          (λ x. x.must_cancel ≡ false) (λ e _. connect_clears config services false s)
          (λ a _.
            run_keeps steps (connect config services false s).1
              (connect_clears config services false s)) in
      let e : start config services steps g ≡ finish config services (body s).0 (body s).1 =
        ground arith in
      subst (λ x. Ends x) (sym e) (finish-Ends (body s).0 (body s).1 kept)
